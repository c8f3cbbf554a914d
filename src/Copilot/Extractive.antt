-- ===== src/Copilot/Extractive.antt =====
-- server/app/services/platform.py: `copilot_answer`, the routes behind the language model.
use legal_bridge.Prelude.{
  ℕ, Option, none, some, List, [], ◌∷◌, filter, flatten, codes, if◌then◌else◌,
}
use legal_bridge.Store.Schema.{Uuid, Text, Db}
use legal_bridge.Extraction.Sections.{is_empty}
use legal_bridge.Analysis.Patterns.{Python}
use legal_bridge.Analysis.Observations.{Source}
use legal_bridge.Copilot.{Answer, extract_records}
use legal_bridge.Copilot.Questions.{
  is_summary, is_compare, is_timeline, is_contradiction, is_report, mentioned_filenames,
  is_of_files, references_of,
}
use legal_bridge.Copilot.Groups.{group_records, by_key}
use legal_bridge.Copilot.Answers.{
  case_timeline, case_contradictions, is_temporal, has_several, timeline_text, contradiction_text,
  report_text, comparison_text, summary_text, targeted_text, file_text,
}

-- The only file that is mentioned.
abbrev pub single_name : List Text → Option Text
single_name (name ∷ []) = some name
single_name _ = none

module _ (python : Python) (show_date : ℕ → Text) (organization_id case_id : Uuid)
    (all_rows : List Source) where
  unfoldable pub file_answer : Text → Answer
  unfolding file_text
  file_answer name =
      let file_pages = filter (is_of_files python (name ∷ [])) all_rows in
      if is_empty file_pages
      then record {
        answer = flatten (
            codes "No extracted pages found for \""
            ∷ name
            ∷ codes "\". Confirm the file was uploaded and processed successfully."
            ∷ []);
        references = [];
      }
      else record { answer = file_text python file_pages; references = references_of file_pages }

  -- The routes behind the language model: the first that fits answers.
  unfoldable pub extractive_answer : Text → List Source → Db → Answer
  unfolding report_text timeline_text contradiction_text comparison_text file_answer summary_text
      targeted_text case_timeline case_contradictions group_records extract_records is_report
      is_timeline is_contradiction is_compare is_summary mentioned_filenames
  extractive_answer lowered selected db =
      let references = references_of selected in
      let recs = extract_records selected in
      let timeline =
        timeline_text python show_date all_rows (case_timeline organization_id case_id db)
          (filter is_temporal recs) in
      let contradictions =
        contradiction_text python show_date all_rows
          (case_contradictions organization_id case_id db) (filter has_several (by_key recs)) in
      let unnamed =
        if is_summary lowered
        then summary_text python selected
        else targeted_text python selected lowered in
      if is_report lowered
      then record { answer = report_text python selected lowered; references = references }
      else if is_timeline lowered
      then record { answer = timeline; references = references }
      else if is_contradiction lowered
      then record { answer = contradictions; references = references }
      else if is_compare lowered
      then record { answer = comparison_text python selected; references = references }
      else elim (single_name (mentioned_filenames python lowered all_rows)) [
        | some name ↦ file_answer name
        | none ↦ record { answer = unnamed; references = references }
      ]
