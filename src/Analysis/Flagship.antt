-- ===== src/Analysis/Flagship.antt =====
-- server/app/services/analysis.py: `has_complete_flagship_data`, the size of the newest completed run.
use legal_bridge.Prelude.{
  ℕ, Bool, true, false, Option, none, some, ◌&&◌, ◌==◌, filter, greatest, leb, length,
}
use legal_bridge.Store.Schema.{Uuid, DateTime, AnalysisRun, RunStatus, Db}

abbrev pub is_completed_run : Uuid → Uuid → AnalysisRun → Bool
is_completed_run organization_id case_id r =
    (r.organization_id == organization_id)
    && (r.case_id == case_id)
    && elim r.status [ RunStatus.completed ↦ true | _ ↦ false ]

abbrev pub moment : Option DateTime → ℕ
moment none = 0
moment (some t) = t

-- The numbers of rows of one run reach those of the flagship case.
abbrev pub has_minimum_rows : Uuid → Db → Bool
has_minimum_rows run_id db =
    leb 13 (length (filter (λ r. r.analysis_run_id == run_id) db.agent_runs))
    && leb 20 (length (filter (λ r. r.analysis_run_id == run_id) db.case_facts))
    && leb 15 (length (filter (λ r. r.analysis_run_id == run_id) db.timeline_events))
    && leb 8 (length (filter (λ r. r.analysis_run_id == run_id) db.contradictions))
    && leb 6 (length (filter (λ r. r.analysis_run_id == run_id) db.procedural_findings))
    && leb 10 (length (filter (λ r. r.analysis_run_id == run_id) db.research_results))
    && leb 6 (length (filter (λ r. r.analysis_run_id == run_id) db.strategies))
    && leb 4 (length (filter (λ r. r.analysis_run_id == run_id) db.ethics_findings))

unfoldable pub has_complete_flagship_data : Uuid → Uuid → Db → Bool
has_complete_flagship_data organization_id case_id db =
    elim (greatest
      (λ (r : AnalysisRun) (s : AnalysisRun). leb (moment s.completed_at) (moment r.completed_at))
      (filter (is_completed_run organization_id case_id) db.analysis_runs)) [
        | none ↦ false
        | some run ↦ has_minimum_rows run.id db
      ]
