-- ===== src/Auth/Revocation.antt =====
-- A password change ends every earlier access token and session of the user.
use legal_bridge.Prelude.{
  ℕ, ◌+◌, true, false, Option, some, List, ◌≡◌, refl, subst, ap, ◌∙◌, not, ◌==◌, ◌&&◌, arith,
  update_where, All, is_some,
}
use legal_bridge.Store.Schema.{DateTime, Uuid, User, Organization, AuthSession, Db}
use legal_bridge.Store.Session.{ok, err, request}
use legal_bridge.Store.Tables.{All-update_where, All-of}
use legal_bridge.Config.{Settings}
use legal_bridge.Auth.Tokens.{Libraries, Json, uuid, Payload, access, is_uuid, decode_token_same}
use legal_bridge.Auth.Principal.{
  Principal, Credentials, first_member, is_current, get_current_principal, unauthorized,
}
use legal_bridge.Auth.Members.{first_member_holds, first_member-find, first_member-update_where}
use legal_bridge.Auth.Routes.{ChangePasswordRequest, change_password, revoke_sessions, save_user}
use legal_bridge.Auth.Authentication.{principal_inv, principal_refused}

-- No session of the user is active.
abbrev pub AllRevoked : Uuid → List AuthSession → Type 0
AllRevoked k = All (λ s. s.user_id ≡ k → is_some s.revoked_at ≡ true)

pub revoke_sessions-AllRevoked :
    (k : Uuid) (now : DateTime) (db : Db) → AllRevoked k (revoke_sessions k now db).auth_sessions
revoke_sessions-AllRevoked k now db =
    All-update_where (λ (_ : AuthSession). Unit {0})
      (λ s. s.user_id ≡ k → is_some s.revoked_at ≡ true)
      (λ s. (s.user_id == k) && not (is_some s.revoked_at))
      (λ s. record s { revoked_at = some now }) db.auth_sessions
      (All-of _ (λ _. tt) db.auth_sessions) (λ s h _ e. refl) (λ s h _ e. ground arith)

module _ (libs : Libraries) (settings : Settings) where
  abbrev pub renewed : ℕ → ChangePasswordRequest → User → User
  renewed salt payload user = record user {
    password_hash = libs.hash_password salt payload.new_password;
    token_version = user.token_version + 1;
  }

  pub change_password_inv :
      (now : DateTime) (salt : ℕ) (payload : ChangePasswordRequest) (p : Principal) (db db' : Db)
      → request (change_password libs settings now salt payload p) db ≡ (ok tt, db')
      → (db'.users ≡ (save_user (renewed salt payload p.user) db).users)
        × (db'.organizations ≡ db.organizations)
        × (db'.auth_sessions ≡ (revoke_sessions p.user.id now db).auth_sessions)
  unfolding change_password
  change_password_inv now salt payload p db db' h = ground arith

  is_current-renewed :
      (claims : Payload) (u u' : User) (o o' : Organization)
      → is_current claims u o ≡ true
      → u'.token_version ≡ u.token_version + 1
      → is_current claims u' o' ≡ false
  unfolding is_current
  is_current-renewed claims u u' o o' h e = ground arith

  -- The member that a token names.
  by_sub :
      (sub : Json) (orgs : List Organization) (us : List User) (u : User) (o : Organization)
      → first_member (λ v _. is_uuid sub v.id) orgs us ≡ some (u, o)
      → sub ≡ uuid u.id
  by_sub sub orgs us u o h =
      let at : is_uuid sub u.id ≡ true = (first_member_holds _ orgs us u o h).1 in ground arith

  -- After the user's row is renewed, no one is authenticated by claims that were accepted before.
  stale :
      (salt : ℕ) (payload : ChangePasswordRequest) (claims : Payload) (db : Db)
      (orgs : List Organization) (us : List User) (p q r : Principal)
      → first_member (λ v _. is_uuid claims.sub v.id) orgs us ≡ some (q.user, q.organization)
      → first_member (λ v _. p.user.id == v.id) orgs us ≡ some (p.user, p.organization)
      → q.user.id ≡ p.user.id
      → is_current claims q.user q.organization ≡ true
      → first_member
          (λ v _. is_uuid claims.sub v.id)
          orgs
          (update_where (λ u. u.id == p.user.id) (λ _. renewed salt payload p.user) us)
        ≡ some (r.user, r.organization)
      → is_current claims r.user r.organization ≡ true
      → ⊥
  stale salt payload claims db orgs us p q r hq hp same current hr now_current =
      let sub : claims.sub ≡ uuid p.user.id =
        by_sub claims.sub orgs us q.user q.organization hq ∙ ap uuid same in
      let hq' : first_member (λ v _. p.user.id == v.id) orgs us ≡ some (q.user, q.organization) =
        subst
          (λ (j : Json).
            first_member (λ v _. is_uuid j v.id) orgs us ≡ some (q.user, q.organization))
          sub hq in
      let hr' : first_member (λ v _. p.user.id == v.id) orgs
            (update_where (λ u. u.id == p.user.id) (λ _. renewed salt payload p.user) us)
          ≡ some (r.user, r.organization) =
        subst
          (λ (j : Json).
            first_member (λ v _. is_uuid j v.id) orgs
              (update_where (λ u. u.id == p.user.id) (λ _. renewed salt payload p.user) us)
            ≡ some (r.user, r.organization))
          sub hr in
      let moved =
        first_member-update_where p.user.id orgs us p.user (renewed salt payload p.user)
          p.organization hp (first_member-find _ orgs us p.user p.organization hp) in
      let one : q.user ≡ p.user = cc in
      let two : r.user ≡ renewed salt payload p.user = cc in
      let three : r.user.token_version ≡ q.user.token_version + 1 = ground arith in
      cc (is_current-renewed claims q.user r.user q.organization r.organization current three)

  -- A password change ends every session of the user, and every access token that has been
  -- accepted for the user is refused from then on.
  pub change_password_revokes :
      (now now' now'' : DateTime) (salt : ℕ) (payload : ChangePasswordRequest) (p q : Principal)
      (used held : Option Credentials) (db db' : Db)
      → request (get_current_principal libs settings now used) db ≡ (ok p, db)
      → request (get_current_principal libs settings now held) db ≡ (ok q, db)
      → q.user.id ≡ p.user.id
      → request (change_password libs settings now' salt payload p) db ≡ (ok tt, db')
      → (request (get_current_principal libs settings now'' held) db' ≡ (err unauthorized, db'))
        × AllRevoked p.user.id db'.auth_sessions
  change_password_revokes now now' now'' salt payload p q used held db db' hp hq same h =
      let (users, orgs, sessions) = change_password_inv now' salt payload p db db' h in
      (
        principal_refused libs settings now'' held db' (λ r a.
            let (token, claims, e, f, g, current) = a in
            let (_, claims_p, _, _, gp, _) = principal_inv libs settings now used db db p hp in
            let (token_q, claims_q, eq, fq, gq, current_q) =
              principal_inv libs settings now held db db q hq in
            let one : token ≡ token_q = cc in
            let two : claims ≡ claims_q =
              decode_token_same libs settings now'' now token access claims claims_q f
                (rw one fq) in
            stale salt payload claims_q db db.organizations db.users p q r gq
              (subst
                (λ (j : Json).
                  first_member (λ v _. is_uuid j v.id) db.organizations db.users
                  ≡ some (p.user, p.organization))
                (by_sub claims_p.sub db.organizations db.users p.user p.organization gp) gp)
              same current_q (rw (two, orgs, users) at g) (rw two at current)),
        rw sessions (revoke_sessions-AllRevoked p.user.id now' db),
      )
