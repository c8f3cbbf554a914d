-- ===== src/Auth/Provisioning.antt =====
-- `create_user` on every branch, and the uniqueness of emails in an organisation.
use legal_bridge.Prelude.{
  ℕ, true, false, List, [], ◌∷◌, ◌++◌, ◌≡◌, ◌≢◌, refl, sym, subst, ◌⊎◌, arith, inl, inr, Bool-cases,
  any, eq_iff,
}
use legal_bridge.Store.Schema.{Uuid, User, UserRole, admin, role_eq, Db}
use legal_bridge.Store.Session.{Result, ok, err, request}
use legal_bridge.Store.Tables.{UniqueBy, UniqueBy-append}
use legal_bridge.Auth.Tokens.{Libraries}
use legal_bridge.Auth.Principal.{Principal, require_roles, insufficient_role}
use legal_bridge.Auth.Users.{
  UserCreate, create_user, flush_user, admin_only, same_email, duplicate_user_email,
}

-- No two users of an organisation share an email.
abbrev pub UniqueEmails : List User → Type 0
UniqueEmails = UniqueBy same_email

same_email_comm : (a b : User) → same_email a b ≡ same_email b a
same_email_comm a b = ground (arith, eq_iff a.email b.email, eq_iff b.email a.email)

-- What a request to provision a user ends in: a refusal that changes no row and says why, or a
-- new active user of the sender's organisation with the fresh identifier, the email, the name and
-- the role that were asked for and the hash of the password that was given, added behind the others,
-- with the emails still unique.
abbrev pub Provisioned :
    Libraries → Uuid → ℕ → Principal → UserCreate → Db → Result User × Db → Type 0
Provisioned libs new_id salt sender payload db (err e, db') =
    (db' ≡ db)
    × ((e ≡ insufficient_role) × (sender.user.role ≢ admin)
        ⊎ (e ≡ duplicate_user_email) × (sender.user.role ≡ admin))
Provisioned libs new_id salt sender payload db (ok u, db') =
    (sender.user.role ≡ admin)
    × (u.organization_id ≡ sender.organization.id)
    × (u.id ≡ new_id)
    × (u.email ≡ payload.email)
    × (u.full_name ≡ payload.full_name)
    × (u.password_hash ≡ libs.hash_password salt payload.temporary_password)
    × (u.token_version ≡ 1)
    × (u.role ≡ payload.role)
    × (u.is_active ≡ true)
    × (db'.users ≡ db.users ++ u ∷ [])
    × UniqueEmails db'.users

admin_only_lem :
    (role : UserRole)
    → ((any (role_eq role) (admin ∷ []) ≡ true) × (role ≡ admin))
      ⊎ ((any (role_eq role) (admin ∷ []) ≡ false) × (role ≢ admin))
admin_only_lem UserRole.admin = inl (refl, refl)
admin_only_lem UserRole.attorney = inr (refl, λ e. cc)
admin_only_lem UserRole.reviewer = inr (refl, λ e. cc)

module _ (libs : Libraries) (new_id : Uuid) (salt : ℕ) (payload : UserCreate) (sender : Principal)
    (db : Db) where
  abbrev new_user : User
  new_user = record {
    id = new_id;
    organization_id = sender.organization.id;
    email = payload.email;
    full_name = payload.full_name;
    password_hash = libs.hash_password salt payload.temporary_password;
    role = payload.role;
    is_active = true;
    token_version = 1;
  }

  create_user_refused :
      any (role_eq sender.user.role) (admin ∷ []) ≡ false
      → request (create_user libs new_id salt payload sender) db ≡ (err insufficient_role, db)
  unfolding create_user admin_only require_roles
  create_user_refused h = ground arith

  create_user_taken :
      any (role_eq sender.user.role) (admin ∷ []) ≡ true
      → any (same_email new_user) db.users ≡ true
      → request (create_user libs new_id salt payload sender) db ≡ (err duplicate_user_email, db)
  unfolding create_user flush_user admin_only require_roles
  create_user_taken h k = ground arith

  create_user_added :
      any (role_eq sender.user.role) (admin ∷ []) ≡ true
      → any (same_email new_user) db.users ≡ false
      → ((request (create_user libs new_id salt payload sender) db).0 ≡ ok new_user)
        × ((request (create_user libs new_id salt payload sender) db).1.users
            ≡ db.users ++ new_user ∷ [])
  unfolding create_user flush_user admin_only require_roles
  create_user_added h k = ground arith

  -- Whatever is sent, `create_user` refuses and changes no row, or adds the user that was asked
  -- for to the sender's organisation, with the email, the name, the role and the hash of the password
  -- that were given, and keeps the emails unique.
  pub create_user-Provisioned :
      UniqueEmails db.users
      → Provisioned libs new_id salt sender payload db
          (request (create_user libs new_id salt payload sender) db)
  create_user-Provisioned unique = elim (admin_only_lem sender.user.role) [
    | inl (passes, is_admin) ↦ elim (Bool-cases (any (same_email new_user) db.users)) [
      | inl taken ↦ rw (create_user_taken passes taken) (refl, inr (refl, is_admin))
      | inr free ↦
          let (reply, rows) = create_user_added passes free in
          subst
            (λ (r : Result User).
              Provisioned libs new_id salt sender payload db
                (r, (request (create_user libs new_id salt payload sender) db).1))
            (sym reply)
            (
              is_admin,
              refl,
              refl,
              refl,
              refl,
              refl,
              refl,
              refl,
              refl,
              rows,
              rw rows (UniqueBy-append same_email same_email_comm db.users new_user unique free),
            )
    ]
    | inr (fails, no_admin) ↦ rw (create_user_refused fails) (refl, inl (refl, no_admin))
  ]
