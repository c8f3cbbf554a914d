-- ===== src/Analysis/Routes.antt =====
-- server/app/api/routes/analysis.py: the routes that change state, `create_analysis_run` and
-- `update_contradiction`.
pub mod Completion
pub mod Approval
pub mod Statuses
pub mod Failure
use legal_bridge.Prelude.{
  ℕ, String, Bool, true, false, Option, none, some, List, [], ◌∷◌, ◌++◌, ◌&&◌, ◌==◌, find,
  update_where,
}
use legal_bridge.Store.Schema.{
  Uuid, DateTime, admin, attorney, reviewer, AnalysisRun, ContradictionRecord, AuditEvent, Db, name,
  plain,
}
use legal_bridge.Store.Session.{
  ApplicationError, Action, ◌>>=◌, ◌>>◌, pure, raise, query, modify, commit, or_raise, raise_if,
  add_audit_event,
}
use legal_bridge.Config.{Settings, Provider}
use legal_bridge.Auth.Principal.{Principal, require_roles}
use legal_bridge.Analysis.Patterns.{Python}
use legal_bridge.Analysis.Authorities.{Scores}
use legal_bridge.Analysis.Rows.{Call}
use legal_bridge.Analysis.Run.{run_case_analysis}

abbrev pub provider_unavailable : ApplicationError
provider_unavailable = record {
  status_code = 422;
  code = "provider_unavailable";
  message = "Only the deterministic analysis provider is available.";
}

unfoldable pub analysis_runner : Principal → Action Principal
analysis_runner = require_roles (admin ∷ attorney ∷ [])

-- `payload.provider or settings.analysis_provider`
abbrev pub chosen_provider : Option Provider → Provider → Provider
chosen_provider none default_provider = default_provider
chosen_provider (some provider) default_provider = provider

abbrev pub is_future : Provider → Bool
is_future Provider.future_ai = true
is_future Provider.deterministic = false

-- The clock and the fresh identifiers of a request.
pub record Clock : Type 0 where
  pub now : DateTime
  pub completed_at : DateTime
  pub fresh : ℕ → Uuid

abbrev pub call_of : Clock → Uuid → Principal → Call
call_of clock case_id principal = record {
  organization_id = principal.organization.id;
  case_id = case_id;
  user_id = principal.user.id;
  now = clock.now;
  completed_at = clock.completed_at;
  fresh = clock.fresh;
}

unfoldable pub create_analysis_run :
    Python → Scores → Settings → Clock → Uuid → Option Provider → Principal → Action AnalysisRun
create_analysis_run python scores settings clock case_id payload sender = do
  principal ← analysis_runner sender
  raise_if (is_future (chosen_provider payload settings.analysis_provider)) provider_unavailable
  run_case_analysis python scores (call_of clock case_id principal)
      (chosen_provider payload settings.analysis_provider)

-- The statuses that the request schema admits.
pub data ContradictionStatus : Type 0 where
  detected reviewed accepted dismissed : ContradictionStatus

abbrev pub contradiction_status_value : ContradictionStatus → String
contradiction_status_value ContradictionStatus.detected = "detected"
contradiction_status_value ContradictionStatus.reviewed = "reviewed"
contradiction_status_value ContradictionStatus.accepted = "accepted"
contradiction_status_value ContradictionStatus.dismissed = "dismissed"

pub record ContradictionUpdate : Type 0 where
  pub status : ContradictionStatus
  pub reviewer_note : Option String

abbrev pub contradiction_not_found : ApplicationError
contradiction_not_found = record {
  status_code = 404;
  code = "contradiction_not_found";
  message = "Contradiction not found.";
}

abbrev pub is_contradiction : Uuid → Uuid → Uuid → ContradictionRecord → Bool
is_contradiction organization_id case_id contradiction_id c =
    (c.id == contradiction_id) && (c.organization_id == organization_id) && (c.case_id == case_id)

abbrev pub save_contradiction : ContradictionRecord → Db → Db
save_contradiction c db = record db {
  contradictions = update_where (λ r. r.id == c.id) (λ _. c) db.contradictions;
}

abbrev pub contradiction_event : Principal → Uuid → Uuid → String → AuditEvent
contradiction_event principal case_id contradiction_id status = record {
  organization_id = principal.organization.id;
  case_id = some case_id;
  actor_user_id = some principal.user.id;
  event_type = "contradiction_review";
  message = plain "Contradiction review status updated.";
  entity_type = "contradiction";
  entity_id = contradiction_id;
  metadata_json = record { key = "status"; value = name status } ∷ [];
}

unfoldable pub contradiction_reviewer : Principal → Action Principal
contradiction_reviewer = require_roles (admin ∷ attorney ∷ reviewer ∷ [])

unfoldable pub update_contradiction :
    Uuid → Uuid → ContradictionUpdate → Principal → Action ContradictionRecord
update_contradiction case_id contradiction_id payload sender = do
  principal ← contradiction_reviewer sender
  found ← query (λ db.
      find (is_contradiction principal.organization.id case_id contradiction_id) db.contradictions)
  contradiction ← or_raise found contradiction_not_found
  let changed = record contradiction {
    status = contradiction_status_value payload.status;
    reviewer_note = payload.reviewer_note;
  }
  modify (save_contradiction changed)
  add_audit_event (
      contradiction_event principal case_id contradiction.id
        (contradiction_status_value payload.status))
  commit
  pure changed
