-- ===== src/Cases/Numbers.antt =====
-- Case numbers stay unique in an organisation; who may edit; archiving.
use legal_bridge.Prelude.{
  true, none, some, List, [], ◌∷◌, ◌≡◌, refl, inl, inr, ◌==◌, arith, find, any, update_where,
  Option-cases, Bool-cases, eq_iff,
}
use legal_bridge.Store.Schema.{Uuid, LegalCase, reviewer, archived, Db}
use legal_bridge.Store.Session.{ok, err, request}
use legal_bridge.Store.Tables.{
  Distinct, find_holds, find_misses, update_where-none, find-update_where, UniqueBy,
  UniqueBy-append,
}
use legal_bridge.Auth.Principal.{Principal, require_roles, insufficient_role}
use legal_bridge.Cases.{
  CaseCreate, create_case, update_case, archive_case, case_editor, get_organization_case,
  validate_assigned_attorney, flush_case, is_case, is_attorney, same_number,
}
use legal_bridge.Cases.Isolation.{
  CaseRequest, create, update, archive, run, case_key, Change, same, added, edited, run-Change,
}

same_number_comm : (a b : LegalCase) → same_number a b ≡ same_number b a
same_number_comm a b =
    ground (arith, eq_iff a.case_number b.case_number, eq_iff b.case_number a.case_number)

-- Rows that agree with the same rows.
any-same_number :
    (c c' : LegalCase) (xs : List LegalCase)
    → c'.organization_id ≡ c.organization_id
    → c'.case_number ≡ c.case_number
    → any (same_number c') xs ≡ any (same_number c) xs
any-same_number c c' [] e f = refl
any-same_number c c' (x ∷ xs) e f = ground (arith, any-same_number c c' xs)

module _ (org case_id : Uuid) (c c' : LegalCase) (i : c'.id ≡ c.id)
    (o : c'.organization_id ≡ c.organization_id) (n : c'.case_number ≡ c.case_number) where
  any-edited :
      (x : LegalCase) (xs : List LegalCase)
      → Distinct case_key xs
      → find (is_case org case_id) xs ≡ some c
      → any (same_number x) (update_where (λ r. r.id == c'.id) (λ _. c') xs)
        ≡ any (same_number x) xs
  any-edited x [] d h = refl
  any-edited x (y ∷ xs) d h = elim (Bool-cases (is_case org case_id y)) [
    | inl here ↦
        let first : y ≡ c = ground arith in
        let absent : find (λ (r : LegalCase). r.id == c'.id) xs ≡ none = rw (i, ← first) d.0 in
        ground (arith, update_where-none (λ r. r.id == c'.id) (λ _. c') xs absent)
    | inr other ↦ ground (
      arith,
      find_misses (λ r. case_key r == y.id) (is_case org case_id) xs c d.0,
      find_holds (is_case org case_id) xs c,
      any-edited x xs d.1,
    )
  ]

  UniqueBy-edited :
      (xs : List LegalCase)
      → Distinct case_key xs
      → find (is_case org case_id) xs ≡ some c
      → UniqueBy same_number xs
      → UniqueBy same_number (update_where (λ r. r.id == c'.id) (λ _. c') xs)
  UniqueBy-edited [] d h u = tt
  UniqueBy-edited (y ∷ xs) d h u = elim (Bool-cases (is_case org case_id y)) [
    | inl here ↦
        let first : y ≡ c = ground arith in
        let absent : find (λ (r : LegalCase). r.id == c'.id) xs ≡ none = rw (i, ← first) d.0 in
        (
          ground (
            arith,
            update_where-none (λ r. r.id == c'.id) (λ _. c') xs absent,
            any-same_number c c' xs,
          ),
          rw (update_where-none (λ r. r.id == c'.id) (λ _. c') xs absent) u.1,
        )
    | inr other ↦ (
      ground (
        arith,
        find_misses (λ r. case_key r == y.id) (is_case org case_id) xs c d.0,
        find_holds (is_case org case_id) xs c,
        any-edited y xs d.1,
      ),
      UniqueBy-edited xs d.1 (ground arith) u.1,
    )
  ]

Change-UniqueBy :
    (org : Uuid) (before after : List LegalCase)
    → Distinct case_key before
    → UniqueBy same_number before
    → Change org before after
    → UniqueBy same_number after
Change-UniqueBy org before after d u (same e) = rw e u
Change-UniqueBy org before after d u (added c mine free e) =
    rw e (UniqueBy-append same_number same_number_comm before c u free)
Change-UniqueBy org before after d u (edited case_id c c' found i o n e) =
    rw e (UniqueBy-edited org case_id c c' i o n before d found u)

-- Whatever is sent to create, update or archive a case, no two cases of an organisation share a
-- case number afterwards if none did before, where cases have a primary key.
pub case_numbers_unique :
    (r : CaseRequest) (sender : Principal) (db : Db)
    → Distinct case_key db.cases
    → UniqueBy same_number db.cases
    → UniqueBy same_number (request (run r sender) db).1.cases
case_numbers_unique r sender db d u =
    Change-UniqueBy sender.organization.id db.cases _ d u (run-Change sender db r)

-- A reviewer's request to create, update or archive a case is refused with 403 and changes no row.
pub reviewer_edits_no_case :
    (r : CaseRequest) (sender : Principal) (db : Db)
    → sender.user.role ≡ reviewer
    → request (run r sender) db ≡ (err insufficient_role, db)
unfolding create_case update_case archive_case case_editor require_roles
reviewer_edits_no_case (create new_id payload) sender db h = rw h refl
reviewer_edits_no_case (update case_id payload) sender db h = rw h refl
reviewer_edits_no_case (archive case_id) sender db h = rw h refl

-- A case that has been archived is archived, and archiving it again returns the same case and
-- changes no row, not even the audit log.
pub archive_idempotent :
    (case_id : Uuid) (sender : Principal) (db db' : Db) (c : LegalCase)
    → request (archive_case case_id sender) db ≡ (ok c, db')
    → (c.status ≡ archived) × (request (archive_case case_id sender) db' ≡ (ok c, db'))
unfolding archive_case case_editor require_roles get_organization_case
archive_idempotent case_id sender db db' c h =
    elim (Option-cases (find (is_case sender.organization.id case_id) db.cases)) [
      | inl e ↦ ground arith
      | inr (v, e) ↦
          let fits = find_holds (is_case sender.organization.id case_id) db.cases v e in
          let v' : LegalCase = record v { status = archived } in
          let again =
            find-update_where (is_case sender.organization.id case_id) (λ r. r.id == v.id) v'
              db.cases v e in
          (ground (arith, again), ground (arith, again))
    ]

-- A case is created only with an assigned attorney who is active, an attorney, and of the sender's
-- organisation, or with none.
pub created_attorney_valid :
    (new_id : Uuid) (payload : CaseCreate) (sender : Principal) (db db' : Db) (c : LegalCase)
    (id : Uuid)
    → request (create_case new_id payload sender) db ≡ (ok c, db')
    → c.assigned_attorney_id ≡ some id
    → any (is_attorney c.organization_id id) db.users ≡ true
unfolding create_case case_editor require_roles validate_assigned_attorney flush_case
created_attorney_valid new_id payload sender db db' c id h e = ground arith
