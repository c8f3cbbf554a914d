-- ===== src/Store/Schema.antt =====
-- The rows of the tables, a record for each model of server/app/models, and the database.
-- An identifier is the number that stands for its uuid4 string, since the code only compares
-- identifiers. A point in time counts seconds, the unit that the tokens carry. Columns that are filled by the database and
-- that no modelled code reads (`updated_at`, most `created_at`) are left out.
mod Identity
mod Casework
mod Motion
mod Findings
mod Copilot
pub use Identity.*
pub use Casework.*
pub use Motion.*
pub use Findings.*
pub use Copilot.*
use legal_bridge.Prelude.{List}

-- The database: one list of rows for each table.
pub record Db : Type 0 where
  pub organizations : List Organization
  pub users : List User
  pub auth_sessions : List AuthSession
  pub cases : List LegalCase
  pub documents : List DocumentRecord
  pub document_pages : List DocumentPage
  pub audit_events : List AuditEvent
  pub analysis_runs : List AnalysisRun
  pub authorities : List LegalAuthority
  pub motion_drafts : List MotionDraft
  pub motion_versions : List MotionVersion
  pub citation_checks : List CitationCheckRecord
  pub attorney_reviews : List AttorneyReview
  pub agent_runs : List AgentRun
  pub case_facts : List CaseFact
  pub timeline_events : List TimelineEventRecord
  pub contradictions : List ContradictionRecord
  pub procedural_findings : List ProceduralFinding
  pub research_results : List ResearchResult
  pub strategies : List StrategyRecommendation
  pub ethics_findings : List EthicsFinding
  pub copilot_threads : List CopilotThread
  pub copilot_messages : List CopilotMessage
