-- ===== src/Store/Schema/Motion.antt =====
-- Motion drafts, their versions, the citation checks and the attorney reviews: the last classes
-- but two of models/analysis.py. The status columns are strings; the data types below have a
-- constructor for each string that the server, its bootstrap scripts included, writes there.
use legal_bridge.Prelude.{ℕ, String, Bool, Option, List}
use legal_bridge.Store.Schema.Identity.{Uuid, DateTime, Text}

pub data MotionStatus : Type 0 where
  draft review_required submitted_for_review changes_requested approved rejected exported :
      MotionStatus

pub record MotionDraft : Type 0 where
  pub id : Uuid
  pub organization_id : Uuid
  pub case_id : Uuid
  pub analysis_run_id : Uuid
  pub title : String
  pub motion_type : String
  pub status : MotionStatus
  pub current_version : ℕ
  pub created_by_user_id : Uuid

pub data CitationStatus : Type 0 where
  pending failed_missing_sources passed_synthetic_sources : CitationStatus

pub data EthicsStatus : Type 0 where
  pending requires_revision passed_with_attorney_review : EthicsStatus

-- A heading and its body.
abbrev pub Section : Type 0
Section = record { heading : Text; body : Text }

pub record MotionVersion : Type 0 where
  pub id : Uuid
  pub motion_draft_id : Uuid
  pub version_number : ℕ
  pub content_json : List Section
  pub rendered_text : Text
  pub citation_check_status : CitationStatus
  pub ethics_check_status : EthicsStatus
  pub created_by_user_id : Uuid

pub data CheckStatus : Type 0 where
  missing_source verified_source synthetic_demo : CheckStatus

pub record CitationCheckRecord : Type 0 where
  pub organization_id : Uuid
  pub case_id : Uuid
  pub motion_version_id : Option Uuid
  pub citation_text : Text
  pub authority_id : Option Uuid
  pub source_document_id : Option Uuid
  pub source_page_id : Option Uuid
  pub status : CheckStatus
  pub message : String

-- The decisions that the request schema admits.
pub data Decision : Type 0 where
  changes_requested approved rejected : Decision

pub record AttorneyReview : Type 0 where
  pub id : Uuid
  pub organization_id : Uuid
  pub case_id : Uuid
  pub motion_draft_id : Option Uuid
  pub reviewer_user_id : Uuid
  pub decision : Decision
  pub comments : String
  pub review_pin_verified : Bool
  pub reviewed_at : Option DateTime
