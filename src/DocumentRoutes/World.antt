-- ===== src/DocumentRoutes/World.antt =====
-- Routes on the session and the files below the storage root.
use legal_bridge.Store.Session.{Session, ApplicationError, Result, ok, err, Action}
use legal_bridge.Storage.{Files}

pub record World : Type 0 where
  pub session : Session
  pub files : Files

abbrev pub Route : Type 0 → Type 0
Route A = World → Result A × World

infixl 5 ◌>>=◌ ◌>>◌
abbrev pub ◌>>=◌ : {A B : Type 0} → Route A → (A → Route B) → Route B
◌>>=◌ m f w = let (r, w') = m w in elim r [ ok a ↦ f a w' | err e ↦ (err e, w') ]

abbrev pub ◌>>◌ : {A B : Type 0} → Route A → Route B → Route B
m >> k = m >>= λ _. k

abbrev pub lift : {A : Type 0} → Action A → Route A
lift m w = let (r, s) = m w.session in (r, record w { session = s })

abbrev pub give : {A : Type 0} → A → Route A
give a w = (ok a, w)

abbrev pub fail : {A : Type 0} → ApplicationError → Route A
fail e w = (err e, w)

-- An operation of the storage service.
abbrev pub on_files : {A : Type 0} → (Files → A × Files) → Route A
on_files f w = let (a, files) = f w.files in (ok a, record w { files = files })

abbrev pub read_files : {A : Type 0} → (Files → A) → Route A
read_files f = on_files (λ files. (f files, files))
