-- ===== src/Store/Schema/Copilot.antt =====
-- The threads and messages of the copilot: the last classes but one of models/analysis.py, and the
-- entries of `source_references_json`.
use legal_bridge.Prelude.{String, List}
use legal_bridge.Store.Schema.Identity.{Uuid, DateTime, Text, Metadata}

pub record CopilotThread : Type 0 where
  pub id : Uuid
  pub organization_id : Uuid
  pub case_id : Uuid
  pub created_by_user_id : Uuid
  pub title : String
  pub updated_at : DateTime

pub record Reference : Type 0 where
  pub document_id : Uuid
  pub page_id : Uuid
  pub label : Text
  pub filename : String
  pub page_number : Text

pub record CopilotMessage : Type 0 where
  pub id : Uuid
  pub thread_id : Uuid
  pub role : String
  pub content : Text
  pub source_references_json : List Reference
  pub metadata_json : List (record { key : String; value : Metadata })
  pub created_at : DateTime
