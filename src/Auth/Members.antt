-- ===== src/Auth/Members.antt =====
-- The join of users and organisations, where both tables have a primary key.
use legal_bridge.Prelude.{
  ℕ, Bool, true, false, none, some, List, [], ◌∷◌, ◌≡◌, ◌&&◌, ◌==◌, arith, inl, inr, Option-cases,
  Bool-cases, find, update_where, All,
}
use legal_bridge.Store.Schema.{User, Organization}
use legal_bridge.Store.Tables.{Distinct, find_holds, find-Distinct, find-none_of}
use legal_bridge.Auth.Principal.{first_member}

abbrev pub user_key : User → ℕ
user_key u = u.id

abbrev pub organization_key : Organization → ℕ
organization_key o = o.id

-- The row of a join passes the test, and its parts belong together.
pub first_member_holds :
    (p : User → Organization → Bool) (orgs : List Organization) (us : List User) (u : User)
    (o : Organization)
    → first_member p orgs us ≡ some (u, o)
    → ((o.id == u.organization_id) ≡ true) × (p u o ≡ true)
unfolding first_member
first_member_holds p orgs [] u o h = cc
first_member_holds p orgs (x ∷ us) u o h =
    elim (Option-cases (find (λ (o : Organization). (o.id == x.organization_id) && p x o) orgs)) [
      | inl e ↦ ground (arith, first_member_holds p orgs us u o)
      | inr (o', e) ↦
          ground (
            arith,
            find_holds (λ (o : Organization). (o.id == x.organization_id) && p x o) orgs o' e,
          )
    ]

-- A user that no row has the key of is not in the join.
first_member_misses :
    (k : ℕ) (p : User → Organization → Bool) (orgs : List Organization) (us : List User) (u : User)
    (o : Organization)
    → find (λ y. user_key y == k) us ≡ none
    → first_member p orgs us ≡ some (u, o)
    → (u.id == k) ≡ false
unfolding first_member
first_member_misses k p orgs [] u o d h = cc
first_member_misses k p orgs (x ∷ us) u o d h = ground (arith, first_member_misses k p orgs us u o)

-- The member that some query finds is found by its identifier.
pub first_member-Distinct :
    (p : User → Organization → Bool) (orgs : List Organization) (us : List User) (u : User)
    (o : Organization)
    → Distinct organization_key orgs
    → Distinct user_key us
    → first_member p orgs us ≡ some (u, o)
    → first_member (λ v _. u.id == v.id) orgs us ≡ some (u, o)
unfolding first_member
first_member-Distinct p orgs [] u o d e h = cc
first_member-Distinct p orgs (x ∷ us) u o d e h =
    elim (Option-cases (find (λ (o : Organization). (o.id == x.organization_id) && p x o) orgs)) [
      | inl none_here ↦ ground (
        arith,
        first_member_misses x.id p orgs us u o e.0,
        first_member-Distinct p orgs us u o d e.1,
        find-none_of (λ (o : Organization). (o.id == x.organization_id) && (u.id == x.id)) orgs,
      )
      | inr (o', here) ↦ ground (
        arith,
        find-Distinct organization_key x.organization_id (p x) (λ _. u.id == x.id) orgs o' d here,
      )
    ]

-- The organisation of a row of a join is the first that fits.
pub first_member-find :
    (p : User → Organization → Bool) (orgs : List Organization) (us : List User) (u : User)
    (o : Organization)
    → first_member p orgs us ≡ some (u, o)
    → find (λ o'. (o'.id == u.organization_id) && p u o') orgs ≡ some o
unfolding first_member
first_member-find p orgs [] u o h = cc
first_member-find p orgs (x ∷ us) u o h =
    elim (Option-cases (find (λ (o : Organization). (o.id == x.organization_id) && p x o) orgs)) [
      | inl e ↦ ground (arith, first_member-find p orgs us u o)
      | inr (o', e) ↦ ground arith
    ]

-- What holds of every user holds of one that a join has.
pub first_member-All :
    (P : User → Type 0) (p : User → Organization → Bool) (orgs : List Organization) (us : List User)
    (u : User) (o : Organization)
    → All P us
    → first_member p orgs us ≡ some (u, o)
    → P u
unfolding first_member
first_member-All P p orgs [] u o a h = cc
first_member-All P p orgs (x ∷ us) u o a h =
    elim (Option-cases (find (λ (o : Organization). (o.id == x.organization_id) && p x o) orgs)) [
      | inl e ↦ first_member-All P p orgs us u o a.1 (ground arith)
      | inr (o', e) ↦ let same : x ≡ u = ground arith in rw same at a.0
    ]

-- A member that is found by its identifier is found, as rewritten, after its row is rewritten.
pub first_member-update_where :
    (k : ℕ) (orgs : List Organization) (us : List User) (u u' : User) (o : Organization)
    → first_member (λ v _. k == v.id) orgs us ≡ some (u, o)
    → find (λ o'. (o'.id == u'.organization_id) && (k == u'.id)) orgs ≡ some o
    → first_member (λ v _. k == v.id) orgs (update_where (λ v. v.id == k) (λ _. u') us)
      ≡ some (u', o)
unfolding first_member
first_member-update_where k orgs [] u u' o h i = cc
first_member-update_where k orgs (x ∷ us) u u' o h i = elim (Bool-cases (x.id == k)) [
  | inl here ↦ ground arith
  | inr other ↦ ground (
    arith,
    find-none_of (λ (o : Organization). (o.id == x.organization_id) && (k == x.id)) orgs,
    first_member-update_where k orgs us u u' o,
  )
]
