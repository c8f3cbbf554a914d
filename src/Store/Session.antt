-- ===== src/Store/Session.antt =====
-- A request's database session (server/app/db/session.py), the errors that a route raises
-- (server/app/core/errors.py), and `add_audit_event` (server/app/services/audit.py).
-- A route works on a copy of the committed rows. `commit` publishes the copy; what is not
-- committed when the route returns or raises is dropped.
use legal_bridge.Prelude.{ℕ, String, Bool, Option, none, some, [], ◌∷◌, ◌++◌, if◌then◌else◌}
use legal_bridge.Store.Schema.{AuditEvent, Db}

pub record ApplicationError : Type 0 where
  pub status_code : ℕ
  pub code : String
  pub message : String

pub data Result (A : Type 0) : Type 0 where
  ok : A → Result A
  err : ApplicationError → Result A

pub record Session : Type 0 where
  pub committed : Db
  pub working : Db

abbrev pub Action : Type 0 → Type 0
Action A = Session → Result A × Session

infixl 5 ◌>>=◌ ◌>>◌
abbrev pub ◌>>=◌ : {A B : Type 0} → Action A → (A → Action B) → Action B
◌>>=◌ m f s = let (r, s') = m s in elim r [ ok a ↦ f a s' | err e ↦ (err e, s') ]

abbrev pub ◌>>◌ : {A B : Type 0} → Action A → Action B → Action B
m >> k = m >>= λ _. k

module _ {A : Type 0} where
  abbrev pub pure : A → Action A
  pure a s = (ok a, s)

  abbrev pub raise : ApplicationError → Action A
  raise e s = (err e, s)

  -- A query on the session's rows.
  abbrev pub query : (Db → A) → Action A
  query f s = (ok (f s.working), s)

  -- `if row is None: raise e`
  abbrev pub or_raise : Option A → ApplicationError → Action A
  or_raise none e = raise e
  or_raise (some a) e = pure a

abbrev pub raise_if : Bool → ApplicationError → Action (Unit {0})
raise_if c e s = (if c then err e else ok tt, s)

-- Rows added or changed in the session.
abbrev pub modify : (Db → Db) → Action (Unit {0})
modify f s = (ok tt, record s { working = f s.working })

abbrev pub commit : Action (Unit {0})
commit s = (ok tt, record s { committed = s.working })

abbrev pub rollback : Action (Unit {0})
rollback s = (ok tt, record s { working = s.committed })

-- `get_session` around a route: the reply, and the rows that later requests see.
abbrev pub request : {A : Type 0} → Action A → Db → Result A × Db
request m db = let (r, s) = m (record { committed = db; working = db }) in (r, s.committed)

-- `session.add(AuditEvent(...))`
abbrev pub add_audit_event : AuditEvent → Action (Unit {0})
add_audit_event e = modify (λ db. record db { audit_events = db.audit_events ++ e ∷ [] })
