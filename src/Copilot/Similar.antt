-- ===== src/Copilot/Similar.antt =====
-- server/app/services/platform.py: `_similar_cases` and the answer of `copilot_answer` on them.
pub mod Isolation
use legal_bridge.Prelude.{
  ℕ, String, Bool, true, false, Option, none, some, List, [], ◌∷◌, ◌++◌, ◌||◌, ◌&&◌, ◌==◌, not, any,
  filter, map, take, greatest, flatten, leb, codes, contains, join, if◌then◌else◌,
}
use legal_bridge.Store.Schema.{
  Uuid, Text, CaseStatus, LegalCase, RunStatus, AnalysisRun, ContradictionRecord, Db,
}
use legal_bridge.Extraction.Sections.{is_empty}
use legal_bridge.Analysis.Patterns.{Python}
use legal_bridge.Copilot.{Answer}

pub record SimilarCase : Type 0 where
  pub case_number : String
  pub title : String
  pub status : CaseStatus
  pub contradictions : List ContradictionRecord
  pub topic_match : Bool

abbrev pub is_closed : CaseStatus → Bool
is_closed CaseStatus.closed = true
is_closed CaseStatus.archived = true
is_closed _ = false

abbrev pub status_value : CaseStatus → String
status_value CaseStatus.draft = "draft"
status_value CaseStatus.active = "active"
status_value CaseStatus.review = "review"
status_value CaseStatus.closed = "closed"
status_value CaseStatus.archived = "archived"

-- The query has no order: the rows come in the order of the table.
abbrev pub other_closed_cases : Uuid → Uuid → Db → List LegalCase
other_closed_cases organization_id current_case_id db =
    filter
      (λ (c : LegalCase).
        (c.organization_id == organization_id)
        && not (c.id == current_case_id)
        && is_closed c.status)
      db.cases

abbrev pub run_is_completed : RunStatus → Bool
run_is_completed RunStatus.completed = true
run_is_completed _ = false

abbrev pub latest_completed_run : Uuid → Uuid → Db → Option AnalysisRun
latest_completed_run organization_id case_id db =
    greatest (λ r q. leb q.created_at r.created_at)
      (filter
        (λ (r : AnalysisRun).
          (r.organization_id == organization_id)
          && (r.case_id == case_id)
          && run_is_completed r.status)
        db.analysis_runs)

abbrev pub contradictions_of_run : AnalysisRun → Db → List ContradictionRecord
contradictions_of_run run db =
    take 5 (filter (λ (c : ContradictionRecord). c.analysis_run_id == run.id) db.contradictions)

abbrev pub finding_lines : ContradictionRecord → Text
finding_lines c = flatten (codes "  • " ∷ codes c.title ∷ codes ": " ∷ c.description ∷ [])

abbrev pub case_lines : SimilarCase → List Text
case_lines s =
    flatten (
      codes "**"
      ∷ codes s.case_number
      ∷ codes " — "
      ∷ codes s.title
      ∷ codes "** (status: "
      ∷ codes (status_value s.status)
      ∷ codes ")"
      ∷ (if s.topic_match then codes " [topic match]" else [])
      ∷ [])
    ∷ map finding_lines (take 3 s.contradictions)

abbrev pub no_similar_cases : String
no_similar_cases =
    "No closed or archived cases exist in this organisation yet. Similar-case retrieval requires at least one completed case with a different case ID in the same workspace. All answers here concern only the current open case."

abbrev pub all_case_lines : List SimilarCase → List Text
all_case_lines similar = flatten (map case_lines similar)

unfoldable pub similar_answer : List SimilarCase → Answer
unfolding join
similar_answer similar =
    if is_empty similar
    then record { answer = codes no_similar_cases; references = [] }
    else record {
      answer = join (codes "\n") (
          codes
            "Closed cases in this organisation with relevant contradiction topics (synthetic demonstration data — not official records):\n"
          ∷ (all_case_lines similar
              ++ codes
                  "\nNote: These are synthetic demonstration records. No real legal precedent is cited."
                ∷ []));
      references = [];
    }

module _ (python : Python) where
  abbrev pub matches_topic : List Text → ContradictionRecord → Bool
  matches_topic topics c =
      any (λ needle. contains (python.lowercase needle) (python.lowercase (codes c.title))) topics

  abbrev pub similar_case : List Text → LegalCase → AnalysisRun → Db → SimilarCase
  similar_case topics c run db = record {
    case_number = c.case_number;
    title = c.title;
    status = c.status;
    contradictions = contradictions_of_run run db;
    topic_match = any (matches_topic topics) (contradictions_of_run run db);
  }

  abbrev pub or_skip : List Text → LegalCase → Option AnalysisRun → Db → List SimilarCase
  or_skip topics c none db = []
  or_skip topics c (some run) db = similar_case topics c run db ∷ []

  -- The cases without a completed run are left out.
  unfoldable pub with_runs : Uuid → List Text → Db → List LegalCase → List SimilarCase
  with_runs organization_id topics db [] = []
  with_runs organization_id topics db (c ∷ cs) =
      or_skip topics c (latest_completed_run organization_id c.id db) db
      ++ with_runs organization_id topics db cs

  -- `_similar_cases`, with the limit of three.
  unfoldable pub similar_cases : Uuid → Uuid → List Text → Db → List SimilarCase
  unfolding with_runs
  similar_cases organization_id current_case_id topics db =
      with_runs organization_id topics db
        (take 3 (other_closed_cases organization_id current_case_id db))
