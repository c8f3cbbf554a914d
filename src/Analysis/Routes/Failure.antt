-- ===== src/Analysis/Routes/Failure.antt =====
-- A run by the provider that is not there.
use legal_bridge.Prelude.{
  suc, ◌+◌, String, some, List, [], ◌∷◌, ◌++◌, ◌≡◌, refl, ap, ◌∙◌, find, map, length, All,
}
use legal_bridge.Store.Schema.{
  RunStatus, AgentRun, AgentStatus, AnalysisRun, LegalCase, LegalAuthority, Db,
}
use legal_bridge.Store.Session.{Result, err, request}
use legal_bridge.Config.{Provider}
use legal_bridge.Processing.{unexpected_error}
use legal_bridge.Cases.{is_case}
use legal_bridge.Analysis.Patterns.{Python}
use legal_bridge.Analysis.Observations.{Source, load_sources}
use legal_bridge.Analysis.Authorities.{ensure_synthetic_authorities, Scores}
use legal_bridge.Analysis.Authorities.Corpus.{two_authorities}
use legal_bridge.Analysis.Rows.{Call, agents, started_agents}
use legal_bridge.Analysis.Entries.{future_ai_unavailable}
use legal_bridge.Analysis.Run.{
  with_failure, failed_run, failed_agent, fail_run, analyse, analyse_sources, run_case_analysis,
}

abbrev pub HasFailed : String → AgentRun → Type 0
HasFailed message agent = (agent.status ≡ AgentStatus.failed) × (agent.error_message ≡ some message)

failed_agent-HasFailed :
    (call : Call) (message : String) (started : List AgentRun)
    → All (HasFailed message) (map (failed_agent call message) started)
failed_agent-HasFailed call message [] = tt
failed_agent-HasFailed call message (agent ∷ started) =
    ((refl, refl), failed_agent-HasFailed call message started)

module _ (python : Python) (scores : Scores) (call : Call) (db : Db) (legal_case : LegalCase)
    (source : Source) (sources : List Source) where
  seeded : List LegalAuthority × Db
  unfolding ensure_synthetic_authorities
  seeded = ensure_synthetic_authorities python call.organization_id (λ n. call.fresh (20 + n)) db

  failed_from : List LegalAuthority → Result AnalysisRun × Db
  unfolding analyse
  failed_from authorities =
      let (r, s) =
        analyse python scores call Provider.future_ai legal_case source sources authorities
          (record { committed = db; working = seeded.1 }) in
      (r, s.committed)

  failing :
      find (is_case call.organization_id call.case_id) db.cases ≡ some legal_case
      → load_sources call.organization_id call.case_id db ≡ source ∷ sources
      → request (run_case_analysis python scores call Provider.future_ai) db ≡ (
        err unexpected_error,
        with_failure call Provider.future_ai future_ai_unavailable (suc (length sources)) seeded.1,
      )
  unfolding run_case_analysis analyse_sources analyse failed_from fail_run seeded
      ensure_synthetic_authorities
  failing found loaded =
      let (a, b, rest, two) =
        two_authorities python call.organization_id (λ n. call.fresh (20 + n)) db in
      let start : request (run_case_analysis python scores call Provider.future_ai) db
          ≡ failed_from seeded.0 =
        rw (found, loaded) refl in
      start ∙ ap failed_from two

  -- A run of a case with a source by the provider that is unavailable raises, and what it leaves says
  -- so: the run is recorded as failed with the provider's message, and so is each of its thirteen
  -- agents. No fact, contradiction, motion, version, citation check, review or audit event is added.
  pub future_provider_fails :
      find (is_case call.organization_id call.case_id) db.cases ≡ some legal_case
      → load_sources call.organization_id call.case_id db ≡ source ∷ sources
      → (run : AnalysisRun) × (db' : Db) × (added : List AgentRun) × (request
            (run_case_analysis python scores call Provider.future_ai)
            db
          ≡ (err unexpected_error, db'))
        × (db'.analysis_runs ≡ db.analysis_runs ++ run ∷ [])
        × (run.status ≡ RunStatus.failed)
        × (run.failure_message ≡ some future_ai_unavailable)
        × (db'.agent_runs ≡ db.agent_runs ++ added)
        × (length added ≡ 13)
        × All (HasFailed future_ai_unavailable) added
        × (db'.case_facts ≡ db.case_facts)
        × (db'.contradictions ≡ db.contradictions)
        × (db'.motion_drafts ≡ db.motion_drafts)
        × (db'.motion_versions ≡ db.motion_versions)
        × (db'.citation_checks ≡ db.citation_checks)
        × (db'.attorney_reviews ≡ db.attorney_reviews)
        × (db'.audit_events ≡ db.audit_events)
  unfolding with_failure started_agents seeded ensure_synthetic_authorities
  future_provider_fails found loaded = (
    failed_run call Provider.future_ai future_ai_unavailable,
    with_failure call Provider.future_ai future_ai_unavailable (suc (length sources)) seeded.1,
    map (failed_agent call future_ai_unavailable)
        (started_agents call (suc (length sources)) 1 agents),
    failing found loaded,
    refl,
    refl,
    refl,
    refl,
    refl,
    failed_agent-HasFailed call future_ai_unavailable
        (started_agents call (suc (length sources)) 1 agents),
    refl,
    refl,
    refl,
    refl,
    refl,
    refl,
    refl,
  )
