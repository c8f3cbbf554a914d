-- ===== src/Config/Validators.antt =====
-- server/app/core/config.py: the validators of the settings, on the fields that they read.
use legal_bridge.Prelude.{
  ℕ, String, Bool, true, false, Option, none, some, List, [], ◌∷◌, ◌&&◌, ◌||◌, ◌==◌, not, codes,
  text_eq, lower, is_prefix, if◌then◌else◌,
}
use legal_bridge.Store.Schema.{Text}
use legal_bridge.Extraction.Texts.{is_empty_text, strip, rstrip}

-- A value, or the message of the ValueError.
pub data Validated (A : Type 0) : Type 0 where
  accepted : A → Validated A
  rejected : String → Validated A

abbrev pub is_slash : ℕ → Bool
is_slash c = c == 47

abbrev pub ends_with_slash : Text → Bool
ends_with_slash [] = false
ends_with_slash (c ∷ []) = is_slash c
ends_with_slash (c ∷ d ∷ rest) = ends_with_slash (d ∷ rest)

unfoldable pub validate_api_prefix : Text → Validated Text
unfolding strip rstrip
validate_api_prefix value =
    let normalized = strip value in
    if not (is_prefix (codes "/") normalized)
    then rejected "API_V1_PREFIX must start with '/'."
    else if not (text_eq normalized (codes "/")) && ends_with_slash normalized
    then accepted (rstrip is_slash normalized)
    else accepted normalized

unfoldable pub validate_cors_origins : List Text → List Text
unfolding strip rstrip
validate_cors_origins [] = []
validate_cors_origins (origin ∷ origins) =
    let rest = validate_cors_origins origins in
    if is_empty_text (strip origin) then rest else rstrip is_slash origin ∷ rest

abbrev pub is_postgresql : Text → Bool
is_postgresql = is_prefix (codes "postgresql+asyncpg://")

unfoldable pub validate_database_url : Text → Validated Text
unfolding strip
validate_database_url value =
    let normalized = strip value in
    if is_prefix (codes "sqlite+aiosqlite://") normalized || is_postgresql normalized
    then accepted normalized
    else rejected "DATABASE_URL must use sqlite+aiosqlite or postgresql+asyncpg."

unfoldable pub normalize_tesseract_command : Option Text → Option Text
unfolding strip
normalize_tesseract_command none = none
normalize_tesseract_command (some value) =
    if is_empty_text (strip value) then none else some (strip value)

pub data DatabaseSsl : Type 0 where
  disable require : DatabaseSsl

pub data StorageProvider : Type 0 where
  local supabase : StorageProvider

pub data AiProvider : Type 0 where
  deterministic gemini nvidia_nim : AiProvider

pub record Environment : Type 0 where
  pub environment : Text
  pub jwt_secret : Text
  pub database_url : Text
  pub database_ssl : DatabaseSsl
  pub storage_provider : StorageProvider
  pub supabase_url : Option Text
  pub supabase_service_role_key : Option Text
  pub ai_provider : AiProvider
  pub gemini_api_key : Option Text
  pub nvidia_nim_base_url : Option Text
  pub nvidia_nim_api_key : Option Text

abbrev pub development_jwt_secret : String
development_jwt_secret = "legalbridge-development-only-secret-change-before-production"

-- An absent or an empty value.
abbrev pub is_missing_value : Option Text → Bool
is_missing_value none = true
is_missing_value (some value) = is_empty_text value

abbrev pub is_production : Text → Bool
is_production environment =
    text_eq (lower environment) (codes "production") || text_eq (lower environment) (codes "prod")

abbrev pub ssl_error : Bool → DatabaseSsl → Option String
ssl_error true DatabaseSsl.require = none
ssl_error true DatabaseSsl.disable = some "PostgreSQL connections require DATABASE_SSL=require."
ssl_error false DatabaseSsl.disable = none
ssl_error false DatabaseSsl.require = some "SQLite connections require DATABASE_SSL=disable."

abbrev pub storage_error : Environment → Option String
storage_error e = elim e.storage_provider [
  | StorageProvider.local ↦ none
  | StorageProvider.supabase ↦
      if is_missing_value e.supabase_url || is_missing_value e.supabase_service_role_key
      then some "Supabase storage requires SUPABASE_URL and SUPABASE_SERVICE_ROLE_KEY."
      else none
]

abbrev pub ai_error : Environment → Option String
ai_error e = elim e.ai_provider [
  | AiProvider.deterministic ↦ none
  | AiProvider.gemini ↦
      if is_missing_value e.gemini_api_key then some "Gemini requires GEMINI_API_KEY." else none
  | AiProvider.nvidia_nim ↦
      if is_missing_value e.nvidia_nim_base_url || is_missing_value e.nvidia_nim_api_key
      then some "NVIDIA NIM requires NVIDIA_NIM_BASE_URL and NVIDIA_NIM_API_KEY."
      else none
]

-- The first error.
abbrev pub or_error : Option String → Option String → Option String
or_error none other = other
or_error (some message) other = some message

-- `reject_development_secret_in_production`
unfoldable pub environment_error : Environment → Option String
unfolding lower
environment_error e =
    if is_production e.environment && text_eq e.jwt_secret (codes development_jwt_secret)
    then some "Production mode requires a non-default LEGALBRIDGE_JWT_SECRET."
    else or_error (ssl_error (is_postgresql e.database_url) e.database_ssl)
        (or_error (storage_error e) (ai_error e))
