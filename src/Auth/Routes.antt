-- ===== src/Auth/Routes.antt =====
-- server/app/api/routes/auth.py: login, refresh rotation, logout, password change.
-- The password library's salt, the clock and the uuid4 values of the new tokens are arguments.
pub mod Rotation
pub mod Login
use legal_bridge.Prelude.{
  ℕ, ◌+◌, ◌*◌, String, Bool, Option, none, some, [], ◌∷◌, ◌++◌, not, ◌&&◌, ◌||◌, ◌==◌, leb, str_eq,
  find, update_where, is_some, if◌then◌else◌,
}
use legal_bridge.Store.Schema.{
  Uuid, DateTime, Text, User, Organization, AuthSession, AuditEvent, Db, plain,
}
use legal_bridge.Store.Session.{
  ApplicationError, Action, ◌>>=◌, ◌>>◌, pure, query, modify, commit, or_raise, raise_if,
  add_audit_event,
}
use legal_bridge.Config.{Settings}
use legal_bridge.Auth.Tokens.{
  Libraries, Json, Payload, refresh, is_uuid, is_number, create_access_token, create_refresh_token,
  decode_token,
}
use legal_bridge.Auth.Principal.{Principal, first_member}

pub record LoginRequest : Type 0 where
  pub organization_slug : String
  pub email : String
  pub password : Text

pub record TokenResponse : Type 0 where
  pub access_token : Text
  pub refresh_token : Text
  pub expires_in : ℕ
  pub user : User

pub record ChangePasswordRequest : Type 0 where
  pub current_password : Text
  pub new_password : Text

-- The identifiers of the tokens that a request issues.
pub record FreshIds : Type 0 where
  pub access_jti : Uuid
  pub refresh_jti : Uuid

abbrev pub invalid_login : ApplicationError
invalid_login = record {
  status_code = 401;
  code = "invalid_credentials";
  message = "Invalid organisation, email, or password.";
}

abbrev pub invalid_refresh : ApplicationError
invalid_refresh = record {
  status_code = 401;
  code = "invalid_refresh_token";
  message = "The refresh token is invalid or no longer active.";
}

abbrev pub invalid_current_password : ApplicationError
invalid_current_password = record {
  status_code = 400;
  code = "invalid_current_password";
  message = "The current password is incorrect.";
}

abbrev pub password_unchanged : ApplicationError
password_unchanged = record {
  status_code = 400;
  code = "password_unchanged";
  message = "The new password must differ from the current password.";
}

-- An event about a user, with no case and no metadata.
abbrev pub user_event : User → String → String → AuditEvent
user_event user event_type message = record {
  organization_id = user.organization_id;
  case_id = none;
  actor_user_id = some user.id;
  event_type = event_type;
  message = plain message;
  entity_type = "user";
  entity_id = user.id;
  metadata_json = [];
}

-- The row that a session refers to, joined with its user and organisation.
unfoldable pub session_row : Json → Db → Option (AuthSession × User × Organization)
session_row jti db = elim (find (λ (s : AuthSession). is_uuid jti s.id) db.auth_sessions) [
  | none ↦ none
  | some s ↦ elim (first_member (λ u _. u.id == s.user_id) db.organizations db.users) [
    | none ↦ none
    | some (user, organization) ↦ some (s, user, organization)
  ]
]

-- The stored row of a changed user, and of a changed session.
abbrev pub save_user : User → Db → Db
save_user user db = record db { users = update_where (λ u. u.id == user.id) (λ _. user) db.users }

abbrev pub save_session : AuthSession → Db → Db
save_session row db = record db {
  auth_sessions = update_where (λ s. s.id == row.id) (λ _. row) db.auth_sessions;
}

-- `update(AuthSession).where(user_id == user, revoked_at IS NULL).values(revoked_at=now)`
abbrev pub revoke_sessions : Uuid → DateTime → Db → Db
revoke_sessions user_id now db = record db {
  auth_sessions =
      update_where (λ s. (s.user_id == user_id) && not (is_some s.revoked_at))
        (λ s. record s { revoked_at = some now }) db.auth_sessions;
}

abbrev pub add_session : AuthSession → Db → Db
add_session row db = record db { auth_sessions = db.auth_sessions ++ row ∷ [] }

-- The end of `logout`: a session that is there and active is revoked.
abbrev pub revoke_found : DateTime → Option AuthSession → Action (Unit {0})
revoke_found now none = pure tt
revoke_found now (some row) =
    if is_some row.revoked_at
    then pure tt
    else modify (save_session (record row { revoked_at = some now })) >> commit

module _ (libs : Libraries) (settings : Settings) where
  unfoldable pub issue_token_response : DateTime → FreshIds → User → TokenResponse × AuthSession
  issue_token_response now ids user =
      let access_issued = create_access_token libs settings now ids.access_jti user in
      let refresh_issued = create_refresh_token libs settings now ids.refresh_jti user in
      (
        record {
          access_token = access_issued.token;
          refresh_token = refresh_issued.token;
          expires_in = settings.access_token_minutes * 60;
          user = user;
        },
        record {
          id = refresh_issued.jti;
          user_id = user.id;
          expires_at = refresh_issued.expires_at;
          revoked_at = none;
          replaced_by_id = none;
        },
      )

  unfoldable pub login : DateTime → FreshIds → LoginRequest → Action TokenResponse
  login now ids payload = do
    row ← query (λ db.
        first_member
          (λ u o. str_eq o.slug payload.organization_slug && str_eq u.email payload.email)
          db.organizations db.users)
    (user, organization) ← or_raise row invalid_login
    raise_if
        (not organization.is_active
          || not user.is_active
          || not (libs.verify_password payload.password user.password_hash))
        invalid_login
    let issued = issue_token_response now ids user
    modify (add_session issued.1)
    add_audit_event (user_event user "successful_sign_in" "User signed in successfully.")
    commit
    pure issued.0

  -- Why a session that was found is not refreshed.
  abbrev pub refresh_refused : DateTime → Payload → AuthSession → User → Organization → Bool
  refresh_refused now claims current_session user organization =
      is_some current_session.revoked_at
      || leb current_session.expires_at now
      || not user.is_active
      || not organization.is_active
      || not (is_uuid claims.sub user.id)
      || not (is_uuid claims.org user.organization_id)
      || not (is_number claims.tv user.token_version)

  unfoldable pub refresh_route : DateTime → FreshIds → Text → Action TokenResponse
  refresh_route now ids refresh_token = do
    claims ← or_raise (decode_token libs settings now refresh_token refresh) invalid_refresh
    row ← query (λ db. session_row claims.jti db)
    (current_session, user, organization) ← or_raise row invalid_refresh
    raise_if (refresh_refused now claims current_session user organization) invalid_refresh
    let issued = issue_token_response now ids user
    modify (add_session issued.1)
    modify (
        save_session
          (record current_session { revoked_at = some now; replaced_by_id = some issued.1.id }))
    commit
    pure issued.0

  unfoldable pub logout : DateTime → Text → Action (Unit {0})
  logout now refresh_token = elim (decode_token libs settings now refresh_token refresh) [
    | none ↦ pure tt
    | some claims ↦ do
      found ← query (λ db. find (λ (s : AuthSession). is_uuid claims.jti s.id) db.auth_sessions)
      revoke_found now found
  ]

  -- `salt` is what the password library draws.
  unfoldable pub change_password :
      DateTime → ℕ → ChangePasswordRequest → Principal → Action (Unit {0})
  change_password now salt payload principal = do
    let user = principal.user
    raise_if (not (libs.verify_password payload.current_password user.password_hash))
        invalid_current_password
    raise_if (libs.verify_password payload.new_password user.password_hash) password_unchanged
    modify (
        save_user (record user {
          password_hash = libs.hash_password salt payload.new_password;
          token_version = user.token_version + 1;
        }))
    modify (revoke_sessions user.id now)
    add_audit_event (user_event user "password_change" "User changed their password.")
    commit
