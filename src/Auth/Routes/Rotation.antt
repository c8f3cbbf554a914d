-- ===== src/Auth/Routes/Rotation.antt =====
-- Refresh rotation: a refresh token works once.
use legal_bridge.Prelude.{
  true, false, none, some, List, [], ◌∷◌, ◌≡◌, refl, arith, inl, inr, Option-cases, ◌==◌, ◌++◌,
  is_some, find, update_where,
}
use legal_bridge.Store.Schema.{DateTime, Text, AuthSession, User, Organization, Db}
use legal_bridge.Store.Session.{ok, err, request}
use legal_bridge.Store.Tables.{find_holds, find-append, find-update_where}
use legal_bridge.Config.{Settings}
use legal_bridge.Auth.Tokens.{
  Libraries, Json, Payload, decode_token_same, refresh, decode_token, is_uuid,
}
use legal_bridge.Auth.Routes.{
  FreshIds, TokenResponse, invalid_refresh, session_row, refresh_route, refresh_refused,
  issue_token_response, add_session, save_session,
}

module _ (libs : Libraries) (settings : Settings) where
  abbrev revoked : DateTime → FreshIds → AuthSession → User → AuthSession
  revoked now ids row user = record row {
    revoked_at = some now;
    replaced_by_id = some (issue_token_response libs settings now ids user).1.id;
  }

  -- What a successful refresh has found, and what it leaves.
  abbrev pub Refreshed : DateTime → FreshIds → Text → Db → TokenResponse → Db → Type 0
  Refreshed now ids token db r db' =
      (claims : Payload) × (row : AuthSession) × (user : User) × (organization : Organization)
      × (decode_token libs settings now token refresh ≡ some claims)
      × (session_row claims.jti db ≡ some (row, user, organization))
      × (refresh_refused libs settings now claims row user organization ≡ false)
      × (r ≡ (issue_token_response libs settings now ids user).0)
      × (db'
          ≡ save_session (revoked now ids row user)
              (add_session (issue_token_response libs settings now ids user).1 db))

  pub refresh_inv :
      (now : DateTime) (ids : FreshIds) (token : Text) (db db' : Db) (r : TokenResponse)
      → request (refresh_route libs settings now ids token) db ≡ (ok r, db')
      → Refreshed now ids token db r db'
  unfolding refresh_route
  refresh_inv now ids token db db' r h =
      elim (Option-cases (decode_token libs settings now token refresh)) [
        | inl e ↦ ground arith
        | inr (claims, e) ↦ elim (Option-cases (session_row claims.jti db)) [
          | inl f ↦ ground arith
          | inr ((row, user, organization), f) ↦
              (claims, row, user, organization, e, f, ground arith, ground arith, ground arith)
        ]
      ]

  -- A query that finds a session still finds it, rewritten, after the rotation.
  find-rotated :
      (jti : Json) (xs : List AuthSession) (row row' added : AuthSession)
      → find (λ s. is_uuid jti s.id) xs ≡ some row
      → row'.id ≡ row.id
      → find
          (λ s. is_uuid jti s.id)
          (update_where (λ s. s.id == row'.id) (λ _. row') (xs ++ added ∷ []))
        ≡ some row'
  find-rotated jti xs row row' added h e =
      let at : is_uuid jti row.id ≡ true =
        find_holds (λ (s : AuthSession). is_uuid jti s.id) xs row h in
      find-update_where (λ s. is_uuid jti s.id) (λ s. s.id == row'.id) row' (xs ++ added ∷ []) row
        (find-append _ xs _ row h) (ground arith) (rw e at)

  -- The session that a successful refresh has used is found again, revoked.
  session_row-Refreshed :
      (jti : Json) (db : Db) (row row' added : AuthSession) (user : User)
      (organization : Organization)
      → session_row jti db ≡ some (row, user, organization)
      → row'.id ≡ row.id
      → row'.user_id ≡ row.user_id
      → session_row jti (save_session row' (add_session added db)) ≡ some (row', user, organization)
  unfolding session_row
  session_row-Refreshed jti db row row' added user organization h i j =
      elim (Option-cases (find (λ (s : AuthSession). is_uuid jti s.id) db.auth_sessions)) [
        | inl e ↦ ground arith
        | inr (found, e) ↦ ground (arith, find-rotated jti db.auth_sessions found row' added e)
      ]

  refresh_undecoded :
      (now : DateTime) (ids : FreshIds) (token : Text) (db : Db)
      → decode_token libs settings now token refresh ≡ none
      → request (refresh_route libs settings now ids token) db ≡ (err invalid_refresh, db)
  unfolding refresh_route
  refresh_undecoded now ids token db e = ground arith

  -- A refresh whose session is there but is refused.
  refresh_refused_lem :
      (now : DateTime) (ids : FreshIds) (token : Text) (db : Db) (claims : Payload)
      (row : AuthSession) (user : User) (organization : Organization)
      → decode_token libs settings now token refresh ≡ some claims
      → session_row claims.jti db ≡ some (row, user, organization)
      → is_some row.revoked_at ≡ true
      → request (refresh_route libs settings now ids token) db ≡ (err invalid_refresh, db)
  unfolding refresh_route
  refresh_refused_lem now ids token db claims row user organization e f g = ground arith

  -- A refresh token that has been used once is refused from then on, whenever it is presented
  -- and whatever new identifiers are drawn, and the second attempt changes no row.
  pub refresh_once :
      (now now' : DateTime) (ids ids' : FreshIds) (token : Text) (db db' : Db) (r : TokenResponse)
      → request (refresh_route libs settings now ids token) db ≡ (ok r, db')
      → request (refresh_route libs settings now' ids' token) db' ≡ (err invalid_refresh, db')
  refresh_once now now' ids ids' token db db' r h =
      let (claims, row, user, organization, e, f, _, _, g) = refresh_inv now ids token db db' r h in
      elim (Option-cases (decode_token libs settings now' token refresh)) [
        | inl none_now ↦ refresh_undecoded now' ids' token db' none_now
        | inr (claims', e') ↦
            let same : claims ≡ claims' =
              decode_token_same libs settings now now' token refresh claims claims' e e' in
            let row' = revoked now ids row user in
            let found : session_row claims'.jti db' ≡ some (row', user, organization) =
              rw (g, ← same)
                (session_row-Refreshed claims.jti db row row'
                  (issue_token_response libs settings now ids user).1 user organization f refl
                  refl) in
            refresh_refused_lem now' ids' token db' claims' row' user organization e' found refl
      ]
