-- ===== src/Analysis/Run.antt =====
-- server/app/services/analysis.py: `run_case_analysis`. What a run adds to the database is one
-- function for each outcome: no source, an exception, and success.
use legal_bridge.Prelude.{
  codes, ◌==◌, ℕ, suc, ◌+◌, String, some, List, [], ◌∷◌, ◌++◌, find, map, length, if◌then◌else◌,
}
use legal_bridge.Store.Schema.{
  LegalCase, LegalAuthority, AnalysisRun, RunStatus, AgentRun, AgentStatus, name, number,
  MotionVersion, Decision, Db,
}
use legal_bridge.Store.Session.{
  ApplicationError, Action, ◌>>=◌, ◌>>◌, pure, raise, query, modify, commit, or_raise,
}
use legal_bridge.Config.{Provider}
use legal_bridge.Cases.{is_case}
use legal_bridge.Processing.{unexpected_error}
use legal_bridge.Analysis.Patterns.{Python}
use legal_bridge.Analysis.Observations.{Source, load_sources, source_observations}
use legal_bridge.Analysis.Contradictions.{find_contradictions}
use legal_bridge.Analysis.Timeline.{case_facts, timeline}
use legal_bridge.Analysis.Procedure.{procedural_candidates, procedural_findings}
use legal_bridge.Analysis.Authorities.{ensure_synthetic_authorities, Scores, research}
use legal_bridge.Analysis.Drafts.{
  motion_sections, second_source, run_motion, run_version, version_checks, run_review,
}
use legal_bridge.Analysis.Recommendations.{
  strategy_titles, strategies_from, ethics_items, ethics_finding,
}
use legal_bridge.Analysis.Rows.{
  Call, agents, scope_of, provider_name, started_run, started_agents, completed_agent, agent_output,
  no_output, finished_run, run_event, agent_event, with_run, with_events,
}
use legal_bridge.Analysis.Entries.{
  excerpts_from, or_references, contradiction_records, future_ai_unavailable,
}

-- `except ValueError` of the route, the only caller of the server.
abbrev pub analysis_case_not_found : ApplicationError
analysis_case_not_found = record {
  status_code = 404;
  code = "case_not_found";
  message = "Case not found in the authenticated organisation.";
}

-- `if not sources`
unfoldable pub without_sources : Call → Provider → Db → Db
unfolding started_agents
without_sources call provider db =
    with_run
      (finished_run call provider
        "Insufficient source material. The available case sources do not establish findings.")
      (map (completed_agent call no_output) (started_agents call 0 1 agents))
      (with_events (run_event call "Analysis completed with insufficient source material." ∷ []) db)

abbrev pub failed_run : Call → Provider → String → AnalysisRun
failed_run call provider message = record (started_run call provider) {
  status = RunStatus.failed;
  failure_message = some message;
  summary = "Analysis failed before results could be completed.";
  completed_at = some call.completed_at;
}

abbrev pub failed_agent : Call → String → AgentRun → AgentRun
failed_agent call message agent = record agent {
  status = AgentStatus.failed;
  error_message = some message;
  completed_at = some call.completed_at;
}

-- `except Exception`, of a message below 1,000 characters: what was added before stays.
unfoldable pub with_failure : Call → Provider → String → ℕ → Db → Db
unfolding started_agents
with_failure call provider message count =
    with_run (failed_run call provider message)
      (map (failed_agent call message) (started_agents call count 1 agents))

module _ (python : Python) (scores : Scores) (call : Call) where
  -- The rows of the results, of the authorities and the sources.
  unfoldable pub with_results : List LegalAuthority → Source → List Source → Db → Db
  unfolding source_observations find_contradictions case_facts timeline procedural_candidates
      procedural_findings research strategies_from contradiction_records excerpts_from
  with_results authorities source sources db =
      let all = source ∷ sources in
      let observations = or_references all (source_observations python all) in
      let found = find_contradictions python observations in
      let scope = scope_of call in
      record db {
        case_facts = db.case_facts ++ case_facts python scope observations;
        timeline_events = db.timeline_events ++ timeline python scope observations;
        contradictions = db.contradictions ++ contradiction_records call 50 found;
        procedural_findings =
            db.procedural_findings
            ++ procedural_findings scope authorities 0
                (procedural_candidates python observations found);
        research_results =
            db.research_results ++ research python scores scope (excerpts_from 0 all) authorities;
        strategies = db.strategies ++ strategies_from scope source sources 0 strategy_titles;
        ethics_findings = db.ethics_findings ++ map (ethics_finding scope) ethics_items;
      }

  abbrev pub revision_note : ℕ → String
  revision_note version_number =
      if version_number == 1
      then "Initial source-grounded outline."
      else "Revised after internal comments; approval remains internal only."

  unfoldable pub drafted_version :
      LegalCase → Source → List Source → LegalAuthority → LegalAuthority → ℕ → MotionVersion
  unfolding motion_sections
  drafted_version legal_case source sources a b version_number =
      run_version (call.fresh (14 + version_number)) (call.fresh 14) version_number
        (motion_sections legal_case source (second_source source sources) a b
          (codes (revision_note version_number)))
        call.user_id

  -- The motion with its versions, their checks and the two reviews.
  unfoldable pub with_motion :
      LegalCase → Source → List Source → LegalAuthority → LegalAuthority → Db → Db
  unfolding drafted_version version_checks
  with_motion legal_case source sources a b db =
      let scope = scope_of call in
      let motion_id = call.fresh 14 in
      record db {
        motion_drafts = db.motion_drafts ++ run_motion motion_id scope legal_case call.user_id ∷ [];
        motion_versions =
            db.motion_versions
            ++ drafted_version legal_case source sources a b 1
              ∷ drafted_version legal_case source sources a b 2
              ∷ [];
        citation_checks =
            db.citation_checks
            ++ (version_checks scope (call.fresh 15) source sources a b
                ++ version_checks scope (call.fresh 16) source sources a b);
        attorney_reviews =
            db.attorney_reviews
            ++ run_review (call.fresh 17) scope motion_id call.user_id Decision.changes_requested
                "Clarify the synthetic-authority labels and source-page links." (call.now + 60)
              ∷ run_review (call.fresh 18) scope motion_id call.user_id Decision.approved
                  "Internal demonstration approval — not a court signature. Not approved for filing."
                  (call.now + 120)
              ∷ [];
      }

  module _ (provider : Provider) where
    abbrev pub analysed_run : AnalysisRun
    analysed_run =
        finished_run call provider
          "Completed 13-agent deterministic analysis using stored document pages and clearly labelled synthetic demonstration authorities."

    -- The agents, the run and the events of a run that succeeds.
    unfoldable pub with_completion : ℕ → Db → Db
    unfolding started_agents
    with_completion count db =
        let agent_runs =
          map (completed_agent call agent_output) (started_agents call count 1 agents) in
        let event = run_event call "Source-grounded case analysis completed." in
        with_run analysed_run agent_runs (
          with_events
            (map (agent_event call) agent_runs
              ++ record event {
                metadata_json =
                    record { key = "provider"; value = name (provider_name provider) }
                    ∷ record { key = "source_pages"; value = number count }
                    ∷ [];
              }
                ∷ [])
            db)

    -- `except Exception` with the message of the exception.
    unfoldable pub fail_run : String → ℕ → Action AnalysisRun
    fail_run message count = do
      modify (with_failure call provider message count)
      commit
      raise unexpected_error

    -- The run from the reading of the excerpts on. `ensure_synthetic_authorities` returns two
    -- authorities at least. The columns take strings of any length, as those of SQLite do: an
    -- exception of the database is not modelled.
    unfoldable pub analyse :
        LegalCase → Source → List Source → List LegalAuthority → Action AnalysisRun
    analyse legal_case source sources (a ∷ b ∷ authorities) = elim provider [
      | Provider.future_ai ↦ fail_run future_ai_unavailable (suc (length sources))
      | Provider.deterministic ↦ do
        modify (with_results (a ∷ b ∷ authorities) source sources)
        modify (with_motion legal_case source sources a b)
        modify (with_completion (suc (length sources)))
        commit
        pure analysed_run
    ]
    analyse legal_case source sources authorities =
        fail_run "list index out of range" (suc (length sources))

    unfoldable pub analyse_sources : LegalCase → List Source → Action AnalysisRun
    analyse_sources legal_case [] = do
      modify (without_sources call provider)
      commit
      pure (
          finished_run call provider
            "Insufficient source material. The available case sources do not establish findings.")
    analyse_sources legal_case (source ∷ sources) = do
      ensured ←
          query
            (ensure_synthetic_authorities python call.organization_id (λ n. call.fresh (20 + n)))
      modify (λ _. ensured.1)
      analyse legal_case source sources ensured.0

    unfoldable pub run_case_analysis : Action AnalysisRun
    run_case_analysis = do
      found ← query (λ db. find (is_case call.organization_id call.case_id) db.cases)
      legal_case ← or_raise found analysis_case_not_found
      sources ← query (load_sources call.organization_id call.case_id)
      analyse_sources legal_case sources
