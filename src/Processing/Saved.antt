-- ===== src/Processing/Saved.antt =====
-- The record of a processed document is saved.
use mathlib.Core.List.{mem-cons_self, mem-cons_of_mem}
use legal_bridge.Prelude.{
  ℕ, Bool, true, Option, List, [], ◌∷◌, ◌≡◌, refl, Mem, arith, ==_self, ◌==◌, any, update_where,
  Bool-cases, Option-cases, inl, inr,
}
use legal_bridge.Store.Schema.{Uuid, DateTime, DocumentRecord}
use legal_bridge.Store.Session.{Session, Result, ok, err}
use legal_bridge.Config.{Settings}
use legal_bridge.Extraction.Pages.{ExtractionResult}
use legal_bridge.Extraction.Formats.{Readers}
use legal_bridge.Processing.{StorageService, stored_key, process_document}

module _ (p : DocumentRecord → Bool) (a b : DocumentRecord) where
  -- Of two saves under one key the last one stays.
  pub saved_twice :
      (ds : List DocumentRecord)
      → p a ≡ true
      → update_where p (λ _. b) (update_where p (λ _. a) ds) ≡ update_where p (λ _. b) ds
  saved_twice [] h = refl
  saved_twice (d ∷ ds) h = ground (arith, saved_twice ds h)

  -- A save of a record whose row is there leaves the record.
  pub saved_in : (ds : List DocumentRecord) → any p ds ≡ true → Mem b (update_where p (λ _. b) ds)
  saved_in [] h = ground arith
  saved_in (d ∷ ds) h = elim (Bool-cases (p d)) [
    | inl here ↦ rw here mem-cons_self
    | inr other ↦ rw other (mem-cons_of_mem d (saved_in ds (ground arith)))
  ]

-- What a processing that succeeds makes of a record and of the stored documents.
abbrev pub Saved :
    DocumentRecord
    → List DocumentRecord
    → Result (DocumentRecord × ExtractionResult) × Session
    → Type 0
Saved d ds (err e, s) = Unit
Saved d ds (ok (d', result), s) =
    (d'.storage_key ≡ d.storage_key)
    × (d'.id ≡ d.id)
    × (d'.case_id ≡ d.case_id)
    × (s.committed.documents ≡ update_where (λ r. r.id == d.id) (λ _. d') ds)

pub process_document-Saved :
    (readers : Readers) (storage : StorageService) (settings : Settings) (now : DateTime)
    (fresh : ℕ → Uuid) (actor : Option Uuid) (d : DocumentRecord) (s : Session)
    → Saved d s.working.documents (process_document readers storage settings now fresh actor d s)
unfolding process_document
process_document-Saved readers storage settings now fresh actor d s =
    elim (Option-cases (stored_key d.storage_key)) [
      | inl e ↦ rw e tt
      | inr (key, e) ↦ elim (Option-cases (storage.path_for_key key)) [
        | inl f ↦ rw (e, f) tt
        | inr (path, f) ↦
            rw (e, f)
              (
                refl,
                refl,
                refl,
                saved_twice (λ r. r.id == d.id) _ _ s.working.documents (==_self d.id),
              )
      ]
    ]
