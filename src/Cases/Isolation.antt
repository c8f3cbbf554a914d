-- ===== src/Cases/Isolation.antt =====
-- What a request can do to the table of cases, and that it stays within the sender's organisation.
use legal_bridge.Prelude.{
  ℕ, false, none, some, List, [], ◌∷◌, ◌++◌, ◌≡◌, refl, ap, ◌⊎◌, inl, inr, ◌==◌, not, arith, find,
  any, filter, update_where, Option-cases, Bool-cases,
}
use legal_bridge.Store.Schema.{Uuid, LegalCase, archived, Db}
use legal_bridge.Store.Session.{Action, request}
use legal_bridge.Store.Tables.{Distinct, find_holds, find_misses, update_where-none}
use legal_bridge.Auth.Principal.{Principal, require_roles}
use legal_bridge.Cases.{
  CaseCreate, CaseUpdate, create_case, update_case, archive_case, case_editor,
  get_organization_case, validate_assigned_attorney, validate_new_attorney, flush_case, new_case,
  apply_updates, is_case, same_number,
}

-- The requests that change the table.
pub data CaseRequest : Type 0 where
  create : Uuid → CaseCreate → CaseRequest
  update : Uuid → CaseUpdate → CaseRequest
  archive : Uuid → CaseRequest

abbrev pub run : CaseRequest → Principal → Action LegalCase
run (create new_id payload) = create_case new_id payload
run (update case_id payload) = update_case case_id payload
run (archive case_id) = archive_case case_id

abbrev pub case_key : LegalCase → ℕ
case_key c = c.id

-- What one request of an organisation does to the table.
pub data Change (org : Uuid) (before : List LegalCase) : List LegalCase → Type 0 where
  same : {after : List LegalCase} → after ≡ before → Change org before after
  added :
      {after : List LegalCase} (c : LegalCase)
      → c.organization_id ≡ org
      → any (same_number c) before ≡ false
      → after ≡ before ++ c ∷ []
      → Change org before after
  edited :
      {after : List LegalCase} (case_id : Uuid) (c c' : LegalCase)
      → find (is_case org case_id) before ≡ some c
      → c'.id ≡ c.id
      → c'.organization_id ≡ c.organization_id
      → c'.case_number ≡ c.case_number
      → after ≡ update_where (λ r. r.id == c'.id) (λ _. c') before
      → Change org before after

module _ (sender : Principal) (db : Db) where
  create_dichotomy :
      (new_id : Uuid) (payload : CaseCreate)
      → ((request (create_case new_id payload sender) db).1.cases ≡ db.cases)
        ⊎ (any (same_number (new_case new_id payload sender)) db.cases ≡ false)
          × ((request (create_case new_id payload sender) db).1.cases
              ≡ db.cases ++ new_case new_id payload sender ∷ [])
  unfolding create_case case_editor require_roles validate_assigned_attorney flush_case
  create_dichotomy new_id payload = ground arith

  update_dichotomy :
      (case_id : Uuid) (payload : CaseUpdate) (c : LegalCase)
      → find (is_case sender.organization.id case_id) db.cases ≡ some c
      → ((request (update_case case_id payload sender) db).1.cases ≡ db.cases)
        ⊎ ((request (update_case case_id payload sender) db).1.cases
            ≡ update_where
                (λ r. r.id == (apply_updates payload c).id)
                (λ _. apply_updates payload c)
                db.cases)
  unfolding update_case case_editor require_roles get_organization_case validate_new_attorney
      validate_assigned_attorney
  update_dichotomy case_id payload c h = ground arith

  update_missing :
      (case_id : Uuid) (payload : CaseUpdate)
      → find (is_case sender.organization.id case_id) db.cases ≡ none
      → (request (update_case case_id payload sender) db).1.cases ≡ db.cases
  unfolding update_case case_editor require_roles get_organization_case
  update_missing case_id payload h = ground arith

  archive_dichotomy :
      (case_id : Uuid) (c : LegalCase)
      → find (is_case sender.organization.id case_id) db.cases ≡ some c
      → ((request (archive_case case_id sender) db).1.cases ≡ db.cases)
        ⊎ ((request (archive_case case_id sender) db).1.cases
            ≡ update_where (λ r. r.id == c.id) (λ _. record c { status = archived }) db.cases)
  unfolding archive_case case_editor require_roles get_organization_case
  archive_dichotomy case_id c h = ground arith

  archive_missing :
      (case_id : Uuid)
      → find (is_case sender.organization.id case_id) db.cases ≡ none
      → (request (archive_case case_id sender) db).1.cases ≡ db.cases
  unfolding archive_case case_editor require_roles get_organization_case
  archive_missing case_id h = ground arith

  -- Every case request does one of these to the table.
  pub run-Change :
      (r : CaseRequest) → Change sender.organization.id db.cases (request (run r sender) db).1.cases
  unfolding apply_updates
  run-Change (create new_id payload) = elim (create_dichotomy new_id payload) [
    | inl e ↦ same e
    | inr (free, e) ↦ added (new_case new_id payload sender) refl free e
  ]
  run-Change (update case_id payload) =
      elim (Option-cases (find (is_case sender.organization.id case_id) db.cases)) [
        | inl e ↦ same (update_missing case_id payload e)
        | inr (c, e) ↦ elim (update_dichotomy case_id payload c e) [
          | inl f ↦ same f
          | inr f ↦ edited case_id c (apply_updates payload c) e refl refl refl f
        ]
      ]
  run-Change (archive case_id) =
      elim (Option-cases (find (is_case sender.organization.id case_id) db.cases)) [
        | inl e ↦ same (archive_missing case_id e)
        | inr (c, e) ↦ elim (archive_dichotomy case_id c e) [
          | inl f ↦ same f
          | inr f ↦ edited case_id c (record c { status = archived }) e refl refl refl f
        ]
      ]

-- The cases of the other organisations, in order.
abbrev pub foreign : Uuid → List LegalCase → List LegalCase
foreign org = filter (λ c. not (c.organization_id == org))

foreign-append :
    (org : Uuid) (xs : List LegalCase) (c : LegalCase)
    → c.organization_id ≡ org
    → foreign org (xs ++ c ∷ []) ≡ foreign org xs
foreign-append org [] c h = ground arith
foreign-append org (x ∷ xs) c h = ground (arith, foreign-append org xs c h)

foreign-update :
    (org case_id : Uuid) (c c' : LegalCase) (xs : List LegalCase)
    → Distinct case_key xs
    → find (is_case org case_id) xs ≡ some c
    → c'.id ≡ c.id
    → c'.organization_id ≡ c.organization_id
    → foreign org (update_where (λ r. r.id == c'.id) (λ _. c') xs) ≡ foreign org xs
foreign-update org case_id c c' [] d h e f = cc
foreign-update org case_id c c' (x ∷ xs) d h e f = elim (Bool-cases (is_case org case_id x)) [
  | inl here ↦
      let first : x ≡ c = ground arith in
      let absent : find (λ (r : LegalCase). r.id == c'.id) xs ≡ none = rw (e, ← first) d.0 in
      ground (arith, update_where-none (λ r. r.id == c'.id) (λ _. c') xs absent)
  | inr other ↦ ground (
    arith,
    find_misses (λ y. case_key y == x.id) (is_case org case_id) xs c d.0,
    find_holds (is_case org case_id) xs c,
    foreign-update org case_id c c' xs d.1,
  )
]

Change-foreign :
    (org : Uuid) (before after : List LegalCase)
    → Distinct case_key before
    → Change org before after
    → foreign org after ≡ foreign org before
Change-foreign org before after d (same e) = ap (foreign org) e
Change-foreign org before after d (added c mine free e) = rw e (foreign-append org before c mine)
Change-foreign org before after d (edited case_id c c' found i o n e) =
    rw e (foreign-update org case_id c c' before d found i o)

-- Whatever a member of an organisation sends to create, update or archive a case, the cases of
-- the other organisations are left as they are, where cases have a primary key.
pub cases_isolated :
    (r : CaseRequest) (sender : Principal) (db : Db)
    → Distinct case_key db.cases
    → foreign sender.organization.id (request (run r sender) db).1.cases
      ≡ foreign sender.organization.id db.cases
cases_isolated r sender db d =
    Change-foreign sender.organization.id db.cases _ d (run-Change sender db r)
