-- ===== src/Store/Schema/Casework.antt =====
-- Cases, documents and their extracted pages, analysis runs and authorities: models/case.py,
-- document.py, document_page.py and the first and seventh class of analysis.py.
use legal_bridge.Prelude.{ℕ, String, Bool, Option}
use legal_bridge.Store.Schema.Identity.{Uuid, DateTime, Text}

pub data CaseStatus : Type 0 where
  draft active review closed archived : CaseStatus

pub record LegalCase : Type 0 where
  pub id : Uuid
  pub organization_id : Uuid
  pub case_number : String
  pub title : String
  pub description : Option String
  pub court_name : Option String
  pub jurisdiction : Option String
  pub allegation_type : Option String
  pub status : CaseStatus
  pub created_by_id : Uuid
  pub assigned_attorney_id : Option Uuid

-- The values that the code writes to `extraction_status`.
pub data ExtractionStatus : Type 0 where
  metadata_only uploaded processing processed partially_processed ocr_required failed :
      ExtractionStatus

pub record DocumentRecord : Type 0 where
  pub id : Uuid
  pub organization_id : Uuid
  pub case_id : Uuid
  pub original_filename : String
  pub content_type : String
  pub size_bytes : ℕ
  pub sha256 : String
  pub category : String
  pub status : String
  pub storage_key : Option String
  pub storage_backend : Option String
  pub extraction_status : ExtractionStatus
  pub parser_name : Option String
  pub parser_version : Option String
  pub page_count : ℕ
  pub extracted_character_count : ℕ
  pub extraction_error : Option Text
  pub processed_at : Option DateTime
  pub original_uploaded_at : Option DateTime
  pub created_by_id : Uuid

pub record DocumentPage : Type 0 where
  pub id : Uuid
  pub organization_id : Uuid
  pub case_id : Uuid
  pub document_id : Uuid
  pub page_number : ℕ
  pub page_label : Text
  pub extracted_text : Text
  pub character_count : ℕ
  pub extraction_method : String
  pub created_at : DateTime

pub data RunStatus : Type 0 where
  running completed failed : RunStatus

pub record AnalysisRun : Type 0 where
  pub id : Uuid
  pub organization_id : Uuid
  pub case_id : Uuid
  pub status : RunStatus
  pub provider : String
  pub started_by_user_id : Uuid
  pub started_at : Option DateTime
  pub completed_at : Option DateTime
  pub failure_message : Option String
  pub summary : String
  pub created_at : DateTime

pub record CalendarDate : Type 0 where
  pub year : ℕ
  pub month : ℕ
  pub day : ℕ

pub record LegalAuthority : Type 0 where
  pub id : Uuid
  pub organization_id : Option Uuid
  pub authority_type : String
  pub title : Text
  pub citation : Text
  pub jurisdiction : String
  pub court : String
  pub decision_date : Option CalendarDate
  pub summary : Text
  pub full_text : Text
  pub source_url : Option String
  pub source_status : String
  pub is_synthetic : Bool
