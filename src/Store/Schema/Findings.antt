-- ===== src/Store/Schema/Findings.antt =====
-- What an analysis run records: the other tables of server/app/models/analysis.py. A confidence
-- counts hundredths, a date is the number of its day and a time the minutes of the day. Columns `id`
-- that nothing refers to are left out.
use legal_bridge.Prelude.{ℕ, String, Option, List}
use legal_bridge.Store.Schema.Identity.{Uuid, DateTime, Text, Message}

pub data AgentStatus : Type 0 where
  running completed failed : AgentStatus

pub record AgentRun : Type 0 where
  pub id : Uuid
  pub organization_id : Uuid
  pub case_id : Uuid
  pub analysis_run_id : Uuid
  pub agent_key : String
  pub agent_name : String
  pub sequence_number : ℕ
  pub status : AgentStatus
  pub input_summary : Message
  pub output_summary : Message
  pub started_at : Option DateTime
  pub completed_at : Option DateTime
  pub error_message : Option String

pub record CaseFact : Type 0 where
  pub organization_id : Uuid
  pub case_id : Uuid
  pub analysis_run_id : Uuid
  pub fact_type : Text
  pub fact_text : Text
  pub confidence : ℕ
  pub source_document_id : Option Uuid
  pub source_page_id : Option Uuid
  pub status : String

pub record TimelineEventRecord : Type 0 where
  pub organization_id : Uuid
  pub case_id : Uuid
  pub analysis_run_id : Uuid
  pub event_date : Option ℕ
  pub event_time : Option ℕ
  pub title : String
  pub description : Text
  pub event_type : Text
  pub confidence : ℕ
  pub source_document_id : Option Uuid
  pub source_page_id : Option Uuid
  pub sequence_number : ℕ

pub record ContradictionRecord : Type 0 where
  pub id : Uuid
  pub organization_id : Uuid
  pub case_id : Uuid
  pub analysis_run_id : Uuid
  pub title : String
  pub description : Text
  pub severity : String
  pub status : String
  pub source_a_document_id : Option Uuid
  pub source_a_page_id : Option Uuid
  pub source_a_excerpt : Text
  pub source_b_document_id : Option Uuid
  pub source_b_page_id : Option Uuid
  pub source_b_excerpt : Text
  pub reviewer_note : Option String

pub record ProceduralFinding : Type 0 where
  pub organization_id : Uuid
  pub case_id : Uuid
  pub analysis_run_id : Uuid
  pub category : String
  pub title : String
  pub description : Text
  pub severity : String
  pub review_status : String
  pub defence_opportunity : String
  pub source_document_id : Option Uuid
  pub source_page_id : Option Uuid
  pub authority_id : Option Uuid

-- The scores, which are floating-point numbers, are left out.
pub record ResearchResult : Type 0 where
  pub organization_id : Uuid
  pub case_id : Uuid
  pub analysis_run_id : Uuid
  pub authority_id : Uuid
  pub rank : ℕ
  pub applicability_summary : Text
  pub limitation_summary : String
  pub source_status : String

pub record StrategyRecommendation : Type 0 where
  pub organization_id : Uuid
  pub case_id : Uuid
  pub analysis_run_id : Uuid
  pub title : String
  pub description : String
  pub priority : String
  pub status : String
  pub rationale : Text
  pub risk : String
  pub next_action : String
  pub supporting_source_ids_json : List Uuid

pub record EthicsFinding : Type 0 where
  pub organization_id : Uuid
  pub case_id : Uuid
  pub analysis_run_id : Uuid
  pub category : String
  pub title : String
  pub description : String
  pub severity : String
  pub status : String
  pub required_action : String
