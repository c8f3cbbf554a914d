-- ===== src/Copilot/Similar/Isolation.antt =====
-- Which cases `_similar_cases` returns.
use legal_bridge.Prelude.{
  ℕ, ◌≤◌, Bool, true, false, Option, none, some, List, [], ◌∷◌, ◌≡◌, ◌&&◌, ◌==◌, not, refl, arith,
  Mem, All, All-passed, All-take, All-Mem, All-greatest, All-append, filter, take, length,
  length-take, length-append, leb,
}
use legal_bridge.Store.Schema.{Uuid, Text, LegalCase, AnalysisRun, ContradictionRecord, Db}
use legal_bridge.Analysis.Patterns.{Python}
use legal_bridge.Copilot.Similar.{
  SimilarCase, is_closed, run_is_completed, other_closed_cases, latest_completed_run,
  contradictions_of_run, or_skip, with_runs, similar_cases,
}

module _ (organization_id current_case_id : Uuid) (db : Db) where
  -- Another case of the organisation, which is closed or archived.
  abbrev pub IsOtherClosed : LegalCase → Type 0
  IsOtherClosed c =
      Mem c db.cases
      × (c.organization_id ≡ organization_id)
      × ((c.id == current_case_id) ≡ false)
      × (is_closed c.status ≡ true)

  -- A completed run of the case.
  abbrev pub IsRunOf : LegalCase → AnalysisRun → Type 0
  IsRunOf c run =
      Mem run db.analysis_runs
      × (run.organization_id ≡ organization_id)
      × (run.case_id ≡ c.id)
      × (run_is_completed run.status ≡ true)

  abbrev pub IsOfRun : AnalysisRun → ContradictionRecord → Type 0
  IsOfRun run found = Mem found db.contradictions × (found.analysis_run_id ≡ run.id)

  -- What is told about such a case: its number, and contradictions of one of its runs.
  abbrev pub Tells : SimilarCase → Type 0
  Tells s =
      (c : LegalCase) × (run : AnalysisRun) × IsOtherClosed c
      × (s.case_number ≡ c.case_number)
      × (s.title ≡ c.title)
      × (s.status ≡ c.status)
      × IsRunOf c run
      × All (IsOfRun run) s.contradictions
      × (length s.contradictions ≤ 5)

  three_ids :
      (a b : ℕ) (c d : Bool) → ((a == b) && c && d) ≡ true → (a ≡ b) × (c ≡ true) × (d ≡ true)
  three_ids a b c d h = (ground arith, ground arith, ground arith)

  false_of_not : (b : Bool) → not b ≡ true → b ≡ false
  false_of_not b h = ground arith

  equal_ids : (a b : ℕ) → (a == b) ≡ true → a ≡ b
  equal_ids a b h = ground arith

  other_closed_cases-IsOtherClosed :
      All IsOtherClosed (other_closed_cases organization_id current_case_id db)
  other_closed_cases-IsOtherClosed =
      All-passed (λ c. Mem c db.cases) IsOtherClosed
        (λ (c : LegalCase).
          (c.organization_id == organization_id)
          && not (c.id == current_case_id)
          && is_closed c.status)
        (λ c m e.
          let (o, n, k) =
            three_ids c.organization_id organization_id (not (c.id == current_case_id))
              (is_closed c.status) e in
          (m, o, false_of_not (c.id == current_case_id) n, k))
        db.cases (All-Mem db.cases)

  module _ (c : LegalCase) where
    latest_completed_run-IsRunOf :
        (run : AnalysisRun)
        → latest_completed_run organization_id c.id db ≡ some run
        → IsRunOf c run
    latest_completed_run-IsRunOf run e =
        All-greatest (IsRunOf c) (λ (r q : AnalysisRun). leb q.created_at r.created_at) _ run
          (All-passed (λ r. Mem r db.analysis_runs) (IsRunOf c)
            (λ (r : AnalysisRun).
              (r.organization_id == organization_id)
              && (r.case_id == c.id)
              && run_is_completed r.status)
            (λ r m h.
              let (o, i, k) =
                three_ids r.organization_id organization_id (r.case_id == c.id)
                  (run_is_completed r.status) h in
              (m, o, equal_ids r.case_id c.id i, k))
            db.analysis_runs (All-Mem db.analysis_runs))
          e

    contradictions-IsOfRun : (run : AnalysisRun) → All (IsOfRun run) (contradictions_of_run run db)
    contradictions-IsOfRun run = All-take (IsOfRun run) 5 _ (
        All-passed (λ k. Mem k db.contradictions) (IsOfRun run)
          (λ (k : ContradictionRecord). k.analysis_run_id == run.id)
          (λ k m e. (m, equal_ids k.analysis_run_id run.id e)) db.contradictions
          (All-Mem db.contradictions))

    at_most_five : (run : AnalysisRun) → length (contradictions_of_run run db) ≤ 5
    at_most_five run = omega (
      arith,
      length-take 5
          (filter (λ (k : ContradictionRecord). k.analysis_run_id == run.id) db.contradictions),
    )

  module _ (python : Python) (topics : List Text) where
    or_skip-Tells :
        (c : LegalCase)
        → IsOtherClosed c
        → (o : Option AnalysisRun) → latest_completed_run organization_id c.id db ≡ o
        → All Tells (or_skip python topics c o db)
    or_skip-Tells c h none e = tt
    or_skip-Tells c h (some run) e = (
      (
        c,
        run,
        h,
        refl,
        refl,
        refl,
        latest_completed_run-IsRunOf c run e,
        contradictions-IsOfRun c run,
        at_most_five c run,
      ),
      tt,
    )

    with_runs-Tells :
        (cs : List LegalCase)
        → All IsOtherClosed cs
        → All Tells (with_runs python organization_id topics db cs)
    unfolding with_runs
    with_runs-Tells [] h = tt
    with_runs-Tells (c ∷ cs) h =
        All-append Tells (or_skip python topics c (latest_completed_run organization_id c.id db) db)
          _ (or_skip-Tells c h.0 _ refl) (with_runs-Tells cs h.1)

    length-or_skip_le :
        (c : LegalCase) (o : Option AnalysisRun) → length (or_skip python topics c o db) ≤ 1
    length-or_skip_le c none = omega arith
    length-or_skip_le c (some run) = omega arith

    length-with_runs_le :
        (cs : List LegalCase) → length (with_runs python organization_id topics db cs) ≤ length cs
    unfolding with_runs
    length-with_runs_le [] = omega arith
    length-with_runs_le (c ∷ cs) =
        let o = latest_completed_run organization_id c.id db in
        omega (
          arith,
          length-append (or_skip python topics c o db)
              (with_runs python organization_id topics db cs),
          length-or_skip_le c o,
          length-with_runs_le cs,
        )

    -- At most three cases are told about, each another case of the organisation that is closed or
    -- archived, with at most five contradictions, all of them of one completed run of that case.
    pub similar_cases-Tells :
        All Tells (similar_cases python organization_id current_case_id topics db)
        × (length (similar_cases python organization_id current_case_id topics db) ≤ 3)
    unfolding similar_cases
    similar_cases-Tells =
        let cases = other_closed_cases organization_id current_case_id db in
        (
          with_runs-Tells (take 3 cases)
              (All-take IsOtherClosed 3 cases other_closed_cases-IsOtherClosed),
          omega (arith, length-with_runs_le (take 3 cases), length-take 3 cases),
        )
