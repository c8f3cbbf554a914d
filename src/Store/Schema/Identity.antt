-- ===== src/Store/Schema/Identity.antt =====
-- Organisations, users, refresh sessions and audit events: models/organization.py, user.py,
-- auth_session.py, audit.py and the enumerations of enums.py.
use legal_bridge.Prelude.{ℕ, String, Bool, true, false, Option, List}

abbrev pub Uuid : Type 0
Uuid = ℕ

abbrev pub DateTime : Type 0
DateTime = ℕ

-- A text whose characters are read, by code point.
abbrev pub Text : Type 0
Text = List ℕ

pub data UserRole : Type 0 where
  admin attorney reviewer : UserRole

abbrev pub role_eq : UserRole → UserRole → Bool
role_eq UserRole.admin UserRole.admin = true
role_eq UserRole.attorney UserRole.attorney = true
role_eq UserRole.reviewer UserRole.reviewer = true
role_eq _ _ = false

pub record Organization : Type 0 where
  pub id : Uuid
  pub name : String
  pub slug : String
  pub is_active : Bool

pub record User : Type 0 where
  pub id : Uuid
  pub organization_id : Uuid
  pub email : String
  pub full_name : String
  pub password_hash : Text
  pub role : UserRole
  pub is_active : Bool
  pub token_version : ℕ

pub record AuthSession : Type 0 where
  pub id : Uuid
  pub user_id : Uuid
  pub expires_at : DateTime
  pub revoked_at : Option DateTime
  pub replaced_by_id : Option Uuid

-- A value of `metadata_json`.
pub data Metadata : Type 0 where
  number : ℕ → Metadata
  name : String → Metadata
  names : List String → Metadata

-- A literal message, or an f-string with one number between two literals.
pub data Message : Type 0 where
  plain : String → Message
  numbered : String → ℕ → String → Message

pub record AuditEvent : Type 0 where
  pub organization_id : Uuid
  pub case_id : Option Uuid
  pub actor_user_id : Option Uuid
  pub event_type : String
  pub message : Message
  pub entity_type : String
  pub entity_id : Uuid
  pub metadata_json : List (record { key : String; value : Metadata })
