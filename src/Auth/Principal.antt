-- ===== src/Auth/Principal.antt =====
-- server/app/api/dependencies.py: who sends a request, and the roles that a route admits.
use legal_bridge.Prelude.{
  Bool, Option, none, some, List, [], ◌∷◌, not, ◌&&◌, ◌||◌, ◌==◌, codes, lower, text_eq, find, any,
  if◌then◌else◌,
}
use legal_bridge.Store.Schema.{DateTime, Text, UserRole, role_eq, User, Organization}
use legal_bridge.Store.Session.{
  ApplicationError, Action, ◌>>=◌, ◌>>◌, pure, query, or_raise, raise_if,
}
use legal_bridge.Config.{Settings}
use legal_bridge.Auth.Tokens.{
  Libraries, Payload, access, is_uuid, is_string, is_number, role_value, decode_token,
}

-- `select(User, Organization).join(...).where(p)` and `.first()`.
unfoldable pub first_member :
    (User → Organization → Bool) → List Organization → List User → Option (User × Organization)
first_member p orgs [] = none
first_member p orgs (u ∷ us) =
    let rest = first_member p orgs us in
    elim (find (λ o. (o.id == u.organization_id) && p u o) orgs) [
      | some o ↦ some (u, o)
      | none ↦ rest
    ]

pub record Principal : Type 0 where
  pub user : User
  pub organization : Organization

pub record Credentials : Type 0 where
  pub scheme : Text
  pub credentials : Text

abbrev pub unauthorized : ApplicationError
unauthorized = record {
  status_code = 401;
  code = "invalid_access_token";
  message = "Authentication is required.";
}

-- The bearer token of a request, if it has one.
unfoldable pub bearer_token : Option Credentials → Option Text
bearer_token none = none
bearer_token (some c) =
    if not (text_eq (lower c.scheme) (codes "bearer")) then none else some c.credentials

-- What must agree between the token and the stored rows.
unfoldable pub is_current : Payload → User → Organization → Bool
is_current payload user organization = not (
    not user.is_active
    || not organization.is_active
    || not (is_uuid payload.org user.organization_id)
    || not (is_number payload.tv user.token_version)
    || not (is_string payload.role (role_value user.role)))

module _ (libs : Libraries) (settings : Settings) where
  unfoldable pub get_current_principal : DateTime → Option Credentials → Action Principal
  get_current_principal now credentials = do
    token ← or_raise (bearer_token credentials) unauthorized
    payload ← or_raise (decode_token libs settings now token access) unauthorized
    row ← query (λ db. first_member (λ u _. is_uuid payload.sub u.id) db.organizations db.users)
    (user, organization) ← or_raise row unauthorized
    raise_if (not (is_current payload user organization)) unauthorized
    pure (record { user = user; organization = organization })

abbrev pub insufficient_role : ApplicationError
insufficient_role = record {
  status_code = 403;
  code = "insufficient_role";
  message = "Your role does not permit this action.";
}

-- `require_roles(*allowed_roles)` on the principal of the request.
unfoldable pub require_roles : List UserRole → Principal → Action Principal
require_roles allowed_roles principal = do
  raise_if (not (any (role_eq principal.user.role) allowed_roles)) insufficient_role
  pure principal
