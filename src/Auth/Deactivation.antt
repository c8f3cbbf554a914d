-- ===== src/Auth/Deactivation.antt =====
-- A deactivated user cannot authenticate by any means.
use legal_bridge.Prelude.{
  ◌+◌, Bool, true, false, Option, none, some, List, [], ◌∷◌, ◌≡◌, ◌≢◌, refl, ◌==◌, ◌&&◌, arith, ◌⊎◌,
  inl, inr, Option-cases, Bool-cases, find, update_where, All,
}
use legal_bridge.Store.Schema.{DateTime, Text, Uuid, User, Organization, AuthSession, Db}
use legal_bridge.Store.Session.{ok, request}
use legal_bridge.Store.Tables.{Distinct, find_misses, find_holds, All-update_where, All-of}
use legal_bridge.Config.{Settings}
use legal_bridge.Auth.Tokens.{Libraries, Json, Payload, is_uuid}
use legal_bridge.Auth.Principal.{Principal, Credentials, is_current, get_current_principal}
use legal_bridge.Auth.Members.{user_key, first_member-All}
use legal_bridge.Auth.Routes.{
  FreshIds, LoginRequest, TokenResponse, login, refresh_route, session_row, issue_token_response,
}
use legal_bridge.Auth.Routes.Login.{login_inv}
use legal_bridge.Auth.Routes.Rotation.{refresh_inv}
use legal_bridge.Auth.Users.{update_user_status, set_status, admin_only}
use legal_bridge.Auth.Principal.{require_roles}
use legal_bridge.Auth.Authentication.{principal_inv}

-- Every row with this identifier is inactive.
abbrev pub Inactive : Uuid → List User → Type 0
Inactive k = All (λ u. u.id ≡ k → u.is_active ≡ false)

Inactive-none :
    (j k : Uuid) (us : List User) → find (λ v. user_key v == j) us ≡ none → j ≡ k → Inactive k us
Inactive-none j k [] h e = tt
Inactive-none j k (x ∷ us) h e = (λ i. ground arith, Inactive-none j k us (ground arith) e)

-- With a primary key, one inactive row is all of them.
Inactive-find :
    (k : Uuid) (p : User → Bool) (us : List User) (u : User)
    → Distinct user_key us
    → find (λ v. (v.id == k) && p v) us ≡ some u
    → u.is_active ≡ false
    → Inactive k us
Inactive-find k p [] u d h e = tt
Inactive-find k p (x ∷ us) u d h e = elim (Bool-cases (x.id == k)) [
  | inl here ↦ (
    λ i. ground (
      arith,
      find_misses (λ v. user_key v == x.id) (λ v. (v.id == k) && p v) us u d.0,
      find_holds (λ v. (v.id == k) && p v) us u,
    ),
    Inactive-none x.id k us d.0 (ground arith),
  )
  | inr other ↦ (λ i. ground arith, Inactive-find k p us u d.1 (ground arith) e)
]

Inactive-save :
    (k : Uuid) (us : List User) (u : User)
    → u.is_active ≡ false
    → Inactive k (update_where (λ v. v.id == k) (λ _. u) us)
Inactive-save k us u e =
    All-update_where (λ (_ : User). Unit {0}) (λ v. v.id ≡ k → v.is_active ≡ false) (λ v. v.id == k)
      (λ _. u) us (All-of _ (λ _. tt) us) (λ v h _ i. e) (λ v h _ i. ground arith)

abbrev in_organization : Uuid → Principal → User → Bool
in_organization k sender u = (u.id == k) && (u.organization_id == sender.organization.id)

-- What a successful change of status has found.
deactivated :
    (now : DateTime) (k : Uuid) (sender : Principal) (db db' : Db) (u : User)
    → request (update_user_status now k false sender) db ≡ (ok u, db')
    → (v : User) × (find (in_organization k sender) db.users ≡ some v)
      × (((v.is_active ≡ false) × (db'.users ≡ db.users))
          ⊎ (db'.users
              ≡ update_where
                  (λ u. u.id == v.id)
                  (λ _. record v { is_active = false; token_version = v.token_version + 1 })
                  db.users))
unfolding update_user_status set_status admin_only require_roles
deactivated now k sender db db' u h =
    elim (Option-cases (find (in_organization k sender) db.users)) [
      | inl e ↦ ground arith
      | inr (v, e) ↦ (
        v,
        e,
        elim (Bool-cases v.is_active) [
          | inl on ↦ inr (ground arith)
          | inr off ↦ inl (off, ground arith)
        ],
      )
    ]

module _ (libs : Libraries) (settings : Settings) where
  -- No request, sign-in or refresh succeeds for this user, whatever is presented and whenever.
  pub record LockedOut (k : Uuid) (db : Db) : Type 0 where
    pub no_request :
        (now : DateTime) (credentials : Option Credentials) (p : Principal)
        → request (get_current_principal libs settings now credentials) db ≡ (ok p, db)
        → p.user.id ≢ k
    pub no_login :
        (now : DateTime) (ids : FreshIds) (payload : LoginRequest) (r : TokenResponse) (db' : Db)
        → request (login libs settings now ids payload) db ≡ (ok r, db')
        → r.user.id ≢ k
    pub no_refresh :
        (now : DateTime) (ids : FreshIds) (token : Text) (r : TokenResponse) (db' : Db)
        → request (refresh_route libs settings now ids token) db ≡ (ok r, db')
        → r.user.id ≢ k

  is_current-is_active :
      (claims : Payload) (u : User) (o : Organization)
      → is_current claims u o ≡ true
      → u.is_active ≡ true
  unfolding is_current
  is_current-is_active claims u o h = ground arith

  session_row-Inactive :
      (k : Uuid) (jti : Json) (db : Db) (row : AuthSession) (u : User) (o : Organization)
      → Inactive k db.users
      → session_row jti db ≡ some (row, u, o)
      → u.id ≡ k
      → u.is_active ≡ false
  unfolding session_row
  session_row-Inactive k jti db row u o a h i =
      elim (Option-cases (find (λ (s : AuthSession). is_uuid jti s.id) db.auth_sessions)) [
        | inl e ↦ ground arith
        | inr (s, e) ↦
            first_member-All (λ u. u.id ≡ k → u.is_active ≡ false) (λ v _. v.id == s.user_id)
              db.organizations db.users u o a (ground arith) i
      ]

  Inactive-LockedOut : (k : Uuid) (db : Db) → Inactive k db.users → LockedOut k db
  unfolding issue_token_response
  Inactive-LockedOut k db a = record {
    no_request = λ now credentials p h i.
        let (token, claims, _, _, g, current) =
          principal_inv libs settings now credentials db db p h in
        let off =
          first_member-All (λ u. u.id ≡ k → u.is_active ≡ false) _ db.organizations db.users p.user
            p.organization a g i in
        cc (is_current-is_active claims p.user p.organization current);
    no_login = λ now ids payload r db' h i.
        let (u, o, (g, _, on, _, e, _, _)) = login_inv libs settings now ids payload db db' r h in
        let off =
          first_member-All (λ u. u.id ≡ k → u.is_active ≡ false) _ db.organizations db.users u o a g
            (rw e at i) in
        cc;
    no_refresh = λ now ids token r db' h i.
        let (claims, row, u, o, _, g, fine, e, _) =
          refresh_inv libs settings now ids token db db' r h in
        let off = session_row-Inactive k claims.jti db row u o a g (rw e at i) in ground arith;
  }

  -- Once an administrator's deactivation of a user has succeeded, no access token, no sign-in and
  -- no refresh of any kind succeeds for that user in the rows that it leaves, where users have a
  -- primary key.
  pub deactivation_locks_out :
      (now : DateTime) (k : Uuid) (sender : Principal) (db db' : Db) (u : User)
      → Distinct user_key db.users
      → request (update_user_status now k false sender) db ≡ (ok u, db')
      → LockedOut k db'
  deactivation_locks_out now k sender db db' u d h =
      let (v, found, how) = deactivated now k sender db db' u h in
      let fits = find_holds (in_organization k sender) db.users v found in
      let same : v.id ≡ k = ground arith in
      Inactive-LockedOut k db' (elim how [
        | inl (off, e) ↦ rw e (
            Inactive-find k (λ u. u.organization_id == sender.organization.id) db.users v d found
              off)
        | inr e ↦ rw (e, same) (Inactive-save k db.users _ refl)
      ])
