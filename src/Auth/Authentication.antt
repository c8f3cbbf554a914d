-- ===== src/Auth/Authentication.antt =====
-- What an authenticated request, a sign-in and a refresh have found in the database.
use legal_bridge.Prelude.{true, Option, some, ◌≡◌, arith, inl, inr, Option-cases, Bool-cases}
use legal_bridge.Store.Schema.{DateTime, Text, Db}
use legal_bridge.Store.Session.{ok, err, request}
use legal_bridge.Config.{Settings}
use legal_bridge.Auth.Tokens.{Libraries, Payload, access, is_uuid, decode_token}
use legal_bridge.Auth.Principal.{
  Principal, Credentials, first_member, bearer_token, is_current, get_current_principal,
  unauthorized,
}

module _ (libs : Libraries) (settings : Settings) where
  abbrev pub Authenticated : DateTime → Option Credentials → Db → Principal → Type 0
  Authenticated now credentials db p =
      (token : Text) × (claims : Payload) × (bearer_token credentials ≡ some token)
      × (decode_token libs settings now token access ≡ some claims)
      × (first_member (λ u _. is_uuid claims.sub u.id) db.organizations db.users
          ≡ some (p.user, p.organization))
      × (is_current claims p.user p.organization ≡ true)

  -- A request is authenticated exactly so, and changes no row.
  pub principal_inv :
      (now : DateTime) (credentials : Option Credentials) (db db' : Db) (p : Principal)
      → request (get_current_principal libs settings now credentials) db ≡ (ok p, db')
      → Authenticated now credentials db p
  unfolding get_current_principal
  principal_inv now credentials db db' p h = elim (Option-cases (bearer_token credentials)) [
    | inl e ↦ ground arith
    | inr (token, e) ↦ elim (Option-cases (decode_token libs settings now token access)) [
      | inl f ↦ ground arith
      | inr (claims, f) ↦
          elim (Option-cases
            (first_member (λ u _. is_uuid claims.sub u.id) db.organizations db.users)) [
              | inl g ↦ ground arith
              | inr ((u, o), g) ↦ (token, claims, e, f, ground arith, ground arith)
            ]
    ]
  ]

  -- Whatever is presented, a request that is not authenticated is refused with 401.
  pub principal_refused :
      (now : DateTime) (credentials : Option Credentials) (db : Db)
      → ((p : Principal) → ¬ Authenticated now credentials db p)
      → request (get_current_principal libs settings now credentials) db ≡ (err unauthorized, db)
  unfolding get_current_principal
  principal_refused now credentials db no_one = elim (Option-cases (bearer_token credentials)) [
    | inl e ↦ ground arith
    | inr (token, e) ↦ elim (Option-cases (decode_token libs settings now token access)) [
      | inl f ↦ ground arith
      | inr (claims, f) ↦
          elim (Option-cases
            (first_member (λ u _. is_uuid claims.sub u.id) db.organizations db.users)) [
              | inl g ↦ ground arith
              | inr ((u, o), g) ↦ elim (Bool-cases (is_current claims u o)) [
                | inl current ↦ absurd (
                    no_one (record { user = u; organization = o })
                      (token, claims, e, f, g, current))
                | inr stale ↦ ground arith
              ]
            ]
    ]
  ]
