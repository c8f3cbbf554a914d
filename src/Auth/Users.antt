-- ===== src/Auth/Users.antt =====
-- server/app/api/routes/users.py: provisioning, and activation of the users of an organisation.
use legal_bridge.Prelude.{
  ℕ, ◌+◌, String, Bool, true, false, none, some, [], ◌∷◌, ◌++◌, not, ◌&&◌, ◌==◌, str_eq, find, any,
  if◌then◌else◌,
}
use legal_bridge.Store.Schema.{Uuid, DateTime, Text, UserRole, admin, User, AuditEvent, name, plain}
use legal_bridge.Store.Session.{
  ApplicationError, Action, ◌>>=◌, ◌>>◌, pure, raise, query, modify, commit, rollback, or_raise,
  raise_if, add_audit_event,
}
use legal_bridge.Auth.Tokens.{Libraries, role_value}
use legal_bridge.Auth.Principal.{Principal, require_roles}
use legal_bridge.Auth.Routes.{save_user, revoke_sessions}

pub record UserCreate : Type 0 where
  pub email : String
  pub full_name : String
  pub role : UserRole
  pub temporary_password : Text

abbrev pub duplicate_user_email : ApplicationError
duplicate_user_email = record {
  status_code = 409;
  code = "duplicate_user_email";
  message = "A user with this email already exists in the organisation.";
}

abbrev pub user_not_found : ApplicationError
user_not_found = record { status_code = 404; code = "user_not_found"; message = "User not found." }

abbrev pub self_deactivation_prohibited : ApplicationError
self_deactivation_prohibited = record {
  status_code = 400;
  code = "self_deactivation_prohibited";
  message = "Administrators cannot deactivate their own account.";
}

-- The unique index on the organisation and the email.
abbrev pub same_email : User → User → Bool
same_email a b = (a.organization_id == b.organization_id) && str_eq a.email b.email

-- `session.flush()` of a new user; a violated index rolls back and becomes the route's error.
unfoldable pub flush_user : User → Action (Unit {0})
flush_user user = do
  duplicate ← query (λ db. any (same_email user) db.users)
  if duplicate
      then rollback >> raise duplicate_user_email
      else modify (λ db. record db { users = db.users ++ user ∷ [] })

-- An event about a user by the acting principal.
abbrev pub admin_event : Principal → Uuid → String → String → AuditEvent
admin_event principal user_id event_type message = record {
  organization_id = principal.organization.id;
  case_id = none;
  actor_user_id = some principal.user.id;
  event_type = event_type;
  message = plain message;
  entity_type = "user";
  entity_id = user_id;
  metadata_json = [];
}

abbrev pub provisioned : UserRole → String
provisioned UserRole.admin = "Provisioned admin user."
provisioned UserRole.attorney = "Provisioned attorney user."
provisioned UserRole.reviewer = "Provisioned reviewer user."

unfoldable pub admin_only : Principal → Action Principal
admin_only = require_roles (admin ∷ [])

-- `new_id` is the row's fresh uuid4, `salt` what the password library draws.
unfoldable pub create_user : Libraries → Uuid → ℕ → UserCreate → Principal → Action User
create_user libs new_id salt payload sender = do
  principal ← admin_only sender
  let user : User = record {
    id = new_id;
    organization_id = principal.organization.id;
    email = payload.email;
    full_name = payload.full_name;
    password_hash = libs.hash_password salt payload.temporary_password;
    role = payload.role;
    is_active = true;
    token_version = 1;
  }
  flush_user user
  add_audit_event
      (record (admin_event principal user.id "user_provisioning" (provisioned payload.role)) {
        metadata_json = record { key = "role"; value = name (role_value payload.role) } ∷ [];
      })
  commit
  pure user

abbrev pub bool_eq : Bool → Bool → Bool
bool_eq true b = b
bool_eq false b = not b

abbrev pub action_event : Bool → Principal → Uuid → AuditEvent
action_event true principal user_id =
    admin_event principal user_id "user_activation" "User activation completed."
action_event false principal user_id =
    admin_event principal user_id "user_deactivation" "User deactivation completed."

-- The user with its new status; a deactivation also invalidates its tokens and sessions.
unfoldable pub set_status : DateTime → Bool → User → Action User
set_status now true user = do
  let changed = record user { is_active = true }
  modify (save_user changed)
  pure changed
set_status now false user = do
  let changed = record user { is_active = false; token_version = user.token_version + 1 }
  modify (save_user changed)
  modify (revoke_sessions user.id now)
  pure changed

unfoldable pub update_user_status : DateTime → Uuid → Bool → Principal → Action User
update_user_status now user_id is_active sender = do
  principal ← admin_only sender
  row ← query (λ db.
      find (λ (u : User). (u.id == user_id) && (u.organization_id == principal.organization.id))
        db.users)
  user ← or_raise row user_not_found
  raise_if ((user.id == principal.user.id) && not is_active) self_deactivation_prohibited
  if bool_eq user.is_active is_active then pure user else (do
    changed ← set_status now is_active user
    add_audit_event (action_event is_active principal user.id)
    commit
    pure changed)
