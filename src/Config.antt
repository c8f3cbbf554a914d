-- ===== src/Config.antt =====
-- The settings that the modelled code reads: the class `Settings` of server/app/core/config.py.
pub mod Validators
use legal_bridge.Prelude.{ℕ, String}
use legal_bridge.Store.Schema.{Text}

-- `Literal["deterministic", "future_ai"]`
pub data Provider : Type 0 where
  deterministic future_ai : Provider

pub record Settings : Type 0 where
  pub access_token_minutes : ℕ
  pub refresh_token_days : ℕ
  pub jwt_secret : Text
  pub max_upload_bytes : ℕ
  pub extraction_text_limit : ℕ
  pub extraction_page_text_limit : ℕ
  pub extraction_max_pages : ℕ
  pub review_pin : String
  pub analysis_provider : Provider
