-- ===== src/Auth/Routes/Login.antt =====
-- What a sign-in issues: an access token that authenticates its user until it expires, and tokens
-- of one kind that are refused where the other is wanted.
use legal_bridge.Prelude.{
  ℕ, ◌+◌, ◌*◌, ◌≤◌, ◌<◌, true, false, Option, none, some, ◌≡◌, refl, ◌&&◌, ◌==◌, arith, inl, inr,
  Option-cases, codes, text_eq, text_eq_self, lower, str_eq, eq_iff,
}
use legal_bridge.Store.Schema.{DateTime, Text, Uuid, User, Organization, Db}
use legal_bridge.Store.Session.{ok, err, request}
use legal_bridge.Store.Tables.{Distinct}
use legal_bridge.Config.{Settings}
use legal_bridge.Auth.Tokens.{
  Libraries, uuid, string, integer, Payload, TokenType, access, refresh, token_type_value,
  role_value, decode_token, create_access_token, create_refresh_token, encode_token,
}
use legal_bridge.Auth.Principal.{
  Principal, Credentials, first_member, bearer_token, is_current, get_current_principal,
  unauthorized,
}
use legal_bridge.Auth.Members.{
  user_key, organization_key, first_member-Distinct, first_member_holds,
}
use legal_bridge.Auth.Routes.{
  FreshIds, LoginRequest, TokenResponse, invalid_refresh, issue_token_response, login,
  refresh_route,
}

-- The header `Authorization: Bearer <token>`.
abbrev pub bearer : Text → Option Credentials
bearer token = some (record { scheme = codes "Bearer"; credentials = token })

bearer_token-bearer : (token : Text) → bearer_token (bearer token) ≡ some token
unfolding bearer_token lower
bearer_token-bearer token = refl

module _ (libs : Libraries) (settings : Settings) where
  -- The claims of a token that is issued for a user.
  abbrev pub claims_of : DateTime → Uuid → User → TokenType → ℕ → Payload
  claims_of now jti user t lifetime = record {
    sub = uuid user.id;
    org = uuid user.organization_id;
    role = string (codes (role_value user.role));
    tv = integer user.token_version;
    type = string (codes (token_type_value t));
    jti = uuid jti;
    iat = now;
    exp = now + lifetime;
  }

  decode-create_access :
      (now now' : DateTime) (jti : Uuid) (user : User)
      → now ≤ now'
      → now' < now + settings.access_token_minutes * 60
      → decode_token libs settings now'
          (create_access_token libs settings now jti user).token
          access
        ≡ some (claims_of now jti user access (settings.access_token_minutes * 60))
  unfolding decode_token create_access_token encode_token
  decode-create_access now now' jti user h k =
      let p = claims_of now jti user access (settings.access_token_minutes * 60) in
      ground (arith, libs.jwt_decode-encode now' p settings.jwt_secret)

  is_current-claims_of :
      (now : DateTime) (jti : Uuid) (user : User) (organization : Organization) (t : TokenType)
      (lifetime : ℕ)
      → user.is_active ≡ true
      → organization.is_active ≡ true
      → is_current (claims_of now jti user t lifetime) user organization ≡ true
  unfolding is_current
  is_current-claims_of now jti user organization t lifetime h k =
      ground (arith, text_eq_self (codes (role_value user.role)))

  -- What a successful sign-in has checked, and what it returns and leaves.
  abbrev pub SignedIn :
      DateTime → FreshIds → LoginRequest → Db → TokenResponse → Db → User → Organization → Type 0
  SignedIn now ids payload db r db' user organization =
      (first_member (λ u o. str_eq o.slug payload.organization_slug && str_eq u.email payload.email)
          db.organizations db.users
        ≡ some (user, organization))
      × (organization.is_active ≡ true)
      × (user.is_active ≡ true)
      × (libs.verify_password payload.password user.password_hash ≡ true)
      × (r ≡ (issue_token_response libs settings now ids user).0)
      × (db'.users ≡ db.users)
      × (db'.organizations ≡ db.organizations)

  pub login_inv :
      (now : DateTime) (ids : FreshIds) (payload : LoginRequest) (db db' : Db) (r : TokenResponse)
      → request (login libs settings now ids payload) db ≡ (ok r, db')
      → (user : User) × (organization : Organization) × SignedIn now ids payload db r db' user
          organization
  unfolding login
  login_inv now ids payload db db' r h =
      elim (Option-cases (
        first_member
          (λ u o. str_eq o.slug payload.organization_slug && str_eq u.email payload.email)
          db.organizations db.users)) [
            | inl e ↦ ground arith
            | inr ((user, organization), e) ↦ (
              user,
              organization,
              (
                e,
                ground arith,
                ground arith,
                ground arith,
                ground arith,
                ground arith,
                ground arith,
              ),
            )
          ]

  authenticates :
      (now : DateTime) (token : Text) (db : Db) (claims : Payload) (user : User)
      (organization : Organization)
      → decode_token libs settings now token access ≡ some claims
      → claims.sub ≡ uuid user.id
      → first_member (λ v _. user.id == v.id) db.organizations db.users ≡ some (user, organization)
      → is_current claims user organization ≡ true
      → request (get_current_principal libs settings now (bearer token)) db
        ≡ (ok (record { user = user; organization = organization }), db)
  unfolding get_current_principal bearer_token lower is_current
  authenticates now token db claims user organization e f g h = rw (e, f, g, h) refl

  -- After a successful sign-in the access token authenticates the user who signed in, from the
  -- moment that it is issued until it expires, where users and organisations have primary keys.
  -- That user is active, stands in the organisation named, has the email, and its password verified.
  pub login_authenticates :
      (now now' : DateTime) (ids : FreshIds) (payload : LoginRequest) (db db' : Db)
      (r : TokenResponse)
      → Distinct organization_key db.organizations
      → Distinct user_key db.users
      → now ≤ now'
      → now' < now + settings.access_token_minutes * 60
      → request (login libs settings now ids payload) db ≡ (ok r, db')
      → (p : Principal) × (request
            (get_current_principal libs settings now' (bearer r.access_token))
            db'
          ≡ (ok p, db'))
        × (p.user ≡ r.user)
        × (p.user.is_active ≡ true)
        × (p.user.email ≡ payload.email)
        × (p.organization.slug ≡ payload.organization_slug)
        × (libs.verify_password payload.password p.user.password_hash ≡ true)
  unfolding issue_token_response create_access_token
  login_authenticates now now' ids payload db db' r d e h k l =
      let (user, organization, (found, org_on, user_on, verified, issued, same_users, same_orgs)) =
        login_inv now ids payload db db' r l in
      let lifetime = settings.access_token_minutes * 60 in
      let matched = first_member_holds _ db.organizations db.users user organization found in
      (
        record { user = user; organization = organization },
        rw (issued, issue_token_response)
            (authenticates now' (create_access_token libs settings now ids.access_jti user).token
              db' (claims_of now ids.access_jti user access lifetime) user organization
              (decode-create_access now now' ids.access_jti user h k) refl
              (rw (same_users, same_orgs)
                (first_member-Distinct _ db.organizations db.users user organization d e found))
              (is_current-claims_of now ids.access_jti user organization access lifetime user_on
                org_on)),
        rw (issued, issue_token_response),
        user_on,
        ground (arith, matched, eq_iff user.email payload.email),
        ground (arith, matched, eq_iff organization.slug payload.organization_slug),
        verified,
      )

  -- A payload of the other kind is refused, whenever it decodes.
  wrong_type :
      (now now' : DateTime) (jti : Uuid) (user : User) (t wanted : TokenType) (lifetime : ℕ)
      → text_eq (codes (token_type_value t)) (codes (token_type_value wanted)) ≡ false
      → decode_token libs settings now'
          (encode_token libs settings now jti user t lifetime).token
          wanted
        ≡ none
  unfolding decode_token encode_token
  wrong_type now now' jti user t wanted lifetime h =
      let p = claims_of now jti user t lifetime in
      ground (arith, libs.jwt_decode-encode now' p settings.jwt_secret)

  -- The two kinds of token are not exchangeable: the refresh token of a response authenticates no
  -- request, and its access token refreshes no session; both attempts change no row.
  pub token_types_separate :
      (now now' : DateTime) (ids ids' : FreshIds) (user : User) (db : Db)
      → let r = (issue_token_response libs settings now ids user).0 in
        (request (get_current_principal libs settings now' (bearer r.refresh_token)) db
          ≡ (err unauthorized, db))
        × (request (refresh_route libs settings now' ids' r.access_token) db
            ≡ (err invalid_refresh, db))
  unfolding issue_token_response create_access_token create_refresh_token get_current_principal
      refresh_route bearer_token lower
  token_types_separate now now' ids ids' user db = (
    rw
        (wrong_type now now' ids.refresh_jti user refresh access
          (settings.refresh_token_days * 86400) refl)
        refl,
    rw
        (wrong_type now now' ids.access_jti user access refresh (settings.access_token_minutes * 60)
          refl)
        refl,
  )
