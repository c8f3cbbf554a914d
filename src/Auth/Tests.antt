-- ===== src/Auth/Tests.antt =====
-- A small organisation, whose requests run, and the theorems of the component at them.
pub mod Codec
use legal_bridge.Prelude.{
  ℕ, ◌+◌, ◌≤◌, ◌<◌, ◌≡◌, ◌≢◌, refl, Bool, true, false, Option, none, some, List, [], ◌∷◌, codes,
  arith, lower,
}
use legal_bridge.Store.Schema.{Uuid, Text, UserRole, User, Organization, AuthSession, Db}
use legal_bridge.Store.Session.{Result, ok, err, request}
use legal_bridge.Config.{Settings, Provider}
use legal_bridge.Auth.Tokens.{
  Libraries, create_access_token, create_refresh_token, encode_token, decode_token,
}
use legal_bridge.Auth.Principal.{
  Principal, Credentials, first_member, bearer_token, is_current, get_current_principal,
  unauthorized, require_roles,
}
use legal_bridge.Auth.Routes.{
  FreshIds, LoginRequest, TokenResponse, ChangePasswordRequest, invalid_refresh,
  issue_token_response, login, refresh_route, session_row, change_password, add_session,
}
use legal_bridge.Auth.Routes.Rotation.{refresh_once}
use legal_bridge.Auth.Routes.Login.{bearer, login_authenticates, token_types_separate}
use legal_bridge.Auth.Revocation.{AllRevoked, renewed, change_password_revokes}
use legal_bridge.Auth.Users.{UserCreate, create_user, update_user_status, set_status, admin_only}
use legal_bridge.Auth.Deactivation.{LockedOut, deactivation_locks_out}
use legal_bridge.Auth.Provisioning.{Provisioned, create_user-Provisioned}
use legal_bridge.Auth.Tests.Codec.{libraries, read, parse}

abbrev pub settings : Settings
settings = record {
  access_token_minutes = 15;
  refresh_token_days = 7;
  jwt_secret = codes "secret";
  max_upload_bytes = 52428800;
  extraction_text_limit = 2000000;
  extraction_page_text_limit = 200000;
  extraction_max_pages = 1000;
  review_pin = "2026";
  analysis_provider = Provider.deterministic;
}

abbrev pub firm : Organization
firm = record { id = 10; name = "Firm"; slug = "firm"; is_active = true }

abbrev pub alice : User
alice = record {
  id = 1;
  organization_id = 10;
  email = "alice@firm.in";
  full_name = "Alice";
  password_hash = 7 ∷ codes "old";
  role = UserRole.admin;
  is_active = true;
  token_version = 1;
}

abbrev pub bob : User
bob = record {
  id = 2;
  organization_id = 10;
  email = "bob@firm.in";
  full_name = "Bob";
  password_hash = 8 ∷ codes "pass";
  role = UserRole.attorney;
  is_active = true;
  token_version = 1;
}

abbrev pub admin_alice : Principal
admin_alice = record { user = alice; organization = firm }

abbrev pub start : Db
start = record {
  organizations = firm ∷ [];
  users = alice ∷ bob ∷ [];
  auth_sessions = [];
  cases = [];
  documents = [];
  document_pages = [];
  audit_events = [];
  analysis_runs = [];
  authorities = [];
  motion_drafts = [];
  motion_versions = [];
  citation_checks = [];
  attorney_reviews = [];
  agent_runs = [];
  case_facts = [];
  timeline_events = [];
  contradictions = [];
  procedural_findings = [];
  research_results = [];
  strategies = [];
  ethics_findings = [];
  copilot_threads = [];
  copilot_messages = [];
}

abbrev ids : FreshIds
ids = record { access_jti = 100; refresh_jti = 101 }

abbrev ids' : FreshIds
ids' = record { access_jti = 102; refresh_jti = 103 }

abbrev sign_in : LoginRequest
sign_in = record { organization_slug = "firm"; email = "alice@firm.in"; password = codes "old" }

abbrev issued : TokenResponse
issued = (issue_token_response libraries settings 1000 ids alice).0

abbrev signed_in : Db
signed_in = (request (login libraries settings 1000 ids sign_in) start).1

signs_in : request (login libraries settings 1000 ids sign_in) start ≡ (ok issued, signed_in)
unfolding login first_member
signs_in = refl

login_authenticates_example :
    (p : Principal) × (request
        (get_current_principal libraries settings 1060 (bearer issued.access_token))
        signed_in
      ≡ (ok p, signed_in))
    × (p.user ≡ issued.user)
    × (p.user.is_active ≡ true)
    × (p.user.email ≡ "alice@firm.in")
    × (p.organization.slug ≡ "firm")
    × (libraries.verify_password (codes "old") p.user.password_hash ≡ true)
login_authenticates_example =
    login_authenticates libraries settings 1000 1060 ids sign_in start signed_in issued (refl, tt)
      (refl, (refl, tt)) (omega arith) (omega arith) signs_in

token_types_separate_example :
    let r = (issue_token_response libraries settings 1000 ids alice).0 in
    (request (get_current_principal libraries settings 1060 (bearer r.refresh_token)) start
      ≡ (err unauthorized, start))
    × (request (refresh_route libraries settings 1060 ids' r.access_token) start
        ≡ (err invalid_refresh, start))
token_types_separate_example =
    token_types_separate libraries settings 1000 1060 ids ids' alice start

abbrev refreshed : Db
refreshed = (request (refresh_route libraries settings 1060 ids' issued.refresh_token) signed_in).1

refreshes :
    request (refresh_route libraries settings 1060 ids' issued.refresh_token) signed_in
    ≡ (ok (issue_token_response libraries settings 1060 ids' alice).0, refreshed)
unfolding refresh_route login first_member session_row issue_token_response create_access_token
    create_refresh_token encode_token decode_token parse
refreshes = refl

refresh_once_example :
    request (refresh_route libraries settings 1120 ids issued.refresh_token) refreshed
    ≡ (err invalid_refresh, refreshed)
refresh_once_example =
    refresh_once libraries settings 1060 1120 ids' ids issued.refresh_token signed_in refreshed
      (issue_token_response libraries settings 1060 ids' alice).0 refreshes

authenticated :
    request (get_current_principal libraries settings 1060 (bearer issued.access_token)) start
    ≡ (ok admin_alice, start)
unfolding get_current_principal first_member issue_token_response create_access_token
    create_refresh_token encode_token decode_token parse bearer_token is_current lower
authenticated = refl

abbrev new_password : ChangePasswordRequest
new_password = record { current_password = codes "old"; new_password = codes "new" }

abbrev changed : Db
changed = (request (change_password libraries settings 1100 9 new_password admin_alice) start).1

changes :
    request (change_password libraries settings 1100 9 new_password admin_alice) start
    ≡ (ok tt, changed)
unfolding change_password
changes = refl

change_password_revokes_example :
    (request (get_current_principal libraries settings 1120 (bearer issued.access_token)) changed
      ≡ (err unauthorized, changed))
    × AllRevoked 1 changed.auth_sessions
change_password_revokes_example =
    change_password_revokes libraries settings 1060 1100 1120 9 new_password admin_alice admin_alice
      (bearer issued.access_token) (bearer issued.access_token) start changed authenticated
      authenticated refl changes

abbrev without_bob : Db
without_bob = (request (update_user_status 1100 2 false admin_alice) start).1

deactivates :
    request (update_user_status 1100 2 false admin_alice) start
    ≡ (ok (record bob { is_active = false; token_version = 2 }), without_bob)
unfolding update_user_status set_status admin_only require_roles
deactivates = refl

deactivation_locks_out_example : LockedOut libraries settings 2 without_bob
deactivation_locks_out_example =
    deactivation_locks_out libraries settings 1100 2 admin_alice start without_bob
      (record bob { is_active = false; token_version = 2 }) (refl, (refl, tt)) deactivates

abbrev carol : UserCreate
carol = record {
  email = "carol@firm.in";
  full_name = "Carol";
  role = UserRole.reviewer;
  temporary_password = codes "temporary";
}

create_user-Provisioned_example :
    Provisioned libraries 3 9 admin_alice carol start
      (request (create_user libraries 3 9 carol admin_alice) start)
create_user-Provisioned_example =
    create_user-Provisioned libraries 3 9 carol admin_alice start (refl, (refl, tt))
