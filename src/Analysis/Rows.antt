-- ===== src/Analysis/Rows.antt =====
-- server/app/services/analysis.py: the rows that `run_case_analysis` writes itself: the run, its agents,
-- and its events.
use Prim.Native.String.{◌++◌ as str_append}
use legal_bridge.Prelude.{
  ℕ, ◌+◌, String, Option, none, some, List, [], ◌∷◌, ◌++◌, str_eq, if◌then◌else◌,
}
use legal_bridge.Store.Schema.{
  Uuid, DateTime, AnalysisRun, RunStatus, AgentRun, AgentStatus, AuditEvent, Message, plain,
  numbered, name, Db,
}
use legal_bridge.Config.{Provider}
use legal_bridge.Analysis.Timeline.{Scope}

-- The keys and names of the agents.
abbrev pub agents : List (String × String)
agents =
    ("intake", "Case Intake")
    ∷ ("document_quality", "Document Quality")
    ∷ ("fact_extraction", "Fact Extraction")
    ∷ ("timeline", "Timeline Builder")
    ∷ ("contradiction", "Contradiction Review")
    ∷ ("procedural_audit", "Procedural Audit")
    ∷ ("research", "Synthetic Authority Research")
    ∷ ("authority_applicability", "Authority Applicability")
    ∷ ("strategy", "Defence Strategy")
    ∷ ("ethics", "Ethics Auditor")
    ∷ ("citation_review", "Citation Firewall")
    ∷ ("motion_outline", "Motion Outline")
    ∷ ("supervisor", "Attorney Review Supervisor")
    ∷ []

-- What a run is called with, the clock at its start and at its end, and its fresh identifiers.
pub record Call : Type 0 where
  pub organization_id : Uuid
  pub case_id : Uuid
  pub user_id : Uuid
  pub now : DateTime
  pub completed_at : DateTime
  pub fresh : ℕ → Uuid

abbrev pub scope_of : Call → Scope
scope_of call = record {
  organization_id = call.organization_id;
  case_id = call.case_id;
  analysis_run_id = call.fresh 0;
}

abbrev pub provider_name : Provider → String
provider_name Provider.deterministic = "deterministic"
provider_name Provider.future_ai = "future_ai"

abbrev pub started_run : Call → Provider → AnalysisRun
started_run call provider = record {
  id = call.fresh 0;
  organization_id = call.organization_id;
  case_id = call.case_id;
  status = RunStatus.running;
  provider = provider_name provider;
  started_by_user_id = call.user_id;
  started_at = some call.now;
  completed_at = none;
  failure_message = none;
  summary = "Analysis is running.";
  created_at = call.now;
}

-- The rows of the agents. The milliseconds that the code adds to each start are below the unit.
unfoldable pub started_agents : Call → ℕ → ℕ → List (String × String) → List AgentRun
started_agents call count sequence [] = []
started_agents call count sequence ((key, title) ∷ rest) =
    record {
      id = call.fresh sequence;
      organization_id = call.organization_id;
      case_id = call.case_id;
      analysis_run_id = call.fresh 0;
      agent_key = key;
      agent_name = title;
      sequence_number = sequence;
      status = AgentStatus.running;
      input_summary = numbered "" count " extracted source pages available.";
      output_summary = plain "";
      started_at = some call.now;
      completed_at = none;
      error_message = none;
    }
    ∷ started_agents call count (sequence + 1) rest

-- `output_counts`: fixed numbers, whatever was persisted.
abbrev pub output_counts : List (String × ℕ)
output_counts =
    ("fact_extraction", 20)
    ∷ ("timeline", 15)
    ∷ ("contradiction", 8)
    ∷ ("procedural_audit", 6)
    ∷ ("research", 10)
    ∷ ("authority_applicability", 10)
    ∷ ("strategy", 6)
    ∷ ("ethics", 4)
    ∷ ("citation_review", 10)
    ∷ ("motion_outline", 2)
    ∷ []

abbrev pub count_of : String → List (String × ℕ) → Option ℕ
count_of key [] = none
count_of key ((k, n) ∷ counts) = if str_eq k key then some n else count_of key counts

abbrev pub output_summary : Option ℕ → Message
output_summary none = plain "Completed deterministic source-grounded review."
output_summary (some n) = numbered "Persisted " n " source-grounded result records."

abbrev pub completed_agent : Call → (AgentRun → Message) → AgentRun → AgentRun
completed_agent call output agent = record agent {
  status = AgentStatus.completed;
  output_summary = output agent;
  completed_at = some call.completed_at;
}

abbrev pub agent_output : AgentRun → Message
agent_output agent = output_summary (count_of agent.agent_key output_counts)

abbrev pub no_output : AgentRun → Message
no_output agent = plain "Insufficient source material; no findings were generated."

abbrev pub finished_run : Call → Provider → String → AnalysisRun
finished_run call provider summary = record (started_run call provider) {
  status = RunStatus.completed;
  summary = summary;
  completed_at = some call.completed_at;
}

abbrev pub run_event : Call → String → AuditEvent
run_event call message = record {
  organization_id = call.organization_id;
  case_id = some call.case_id;
  actor_user_id = some call.user_id;
  event_type = "analysis_completed";
  message = plain message;
  entity_type = "analysis_run";
  entity_id = call.fresh 0;
  metadata_json = [];
}

abbrev pub agent_event : Call → AgentRun → AuditEvent
agent_event call agent = record {
  organization_id = call.organization_id;
  case_id = some call.case_id;
  actor_user_id = some call.user_id;
  event_type = "analysis_agent_completed";
  message = plain (str_append agent.agent_name " completed.");
  entity_type = "agent_run";
  entity_id = agent.id;
  metadata_json = record { key = "agent_key"; value = name agent.agent_key } ∷ [];
}

-- The run and its agents, as they are when the transaction ends: running rows are not committed.
abbrev pub with_run : AnalysisRun → List AgentRun → Db → Db
with_run run agent_runs db = record db {
  analysis_runs = db.analysis_runs ++ run ∷ [];
  agent_runs = db.agent_runs ++ agent_runs;
}

abbrev pub with_events : List AuditEvent → Db → Db
with_events events db = record db { audit_events = db.audit_events ++ events }
