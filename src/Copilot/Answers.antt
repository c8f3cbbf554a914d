-- ===== src/Copilot/Answers.antt =====
-- server/app/services/platform.py: `copilot_answer`, an answer for each kind of question.
use legal_bridge.Prelude.{
  ℕ, String, Bool, List, [], ◌∷◌, ◌++◌, ◌||◌, ◌&&◌, ◌==◌, any, filter, map, take, sort_by, length,
  flatten, ltb, leb, codes, text_le, contains, join, if◌then◌else◌,
}
use legal_bridge.Store.Schema.{
  Uuid, Text, AnalysisRun, TimelineEventRecord, ContradictionRecord, Db,
}
use legal_bridge.Extraction.Sections.{is_empty}
use legal_bridge.Extraction.Pages.{without}
use legal_bridge.Analysis.Patterns.{Python}
use legal_bridge.Analysis.Observations.{Source}
use legal_bridge.Copilot.{PageRecord, extract_records}
use legal_bridge.Copilot.Questions.{is_timeline, is_contradiction, relevant_tokens}
use legal_bridge.Copilot.Groups.{
  Groups, extend_group, group_records, by_key, group_le, several, value_of,
}
use legal_bridge.Copilot.Lines.{
  page_excerpt, event_line, contradiction_lines, bullet, time_line, conflict_lines, summary_lines,
  comparison_lines, matches,
}

abbrev pub lines_text : List Text → Text
lines_text = join (codes "\n")

-- The runs of the case that an inner join keeps.
abbrev pub is_run_of : Uuid → Uuid → Db → Uuid → Bool
is_run_of organization_id case_id db run_id =
    any
      (λ (r : AnalysisRun).
        (r.id == run_id) && (r.organization_id == organization_id) && (r.case_id == case_id))
      db.analysis_runs

-- In the order of the sequence numbers; equal ones in the order of the table.
unfoldable pub case_timeline : Uuid → Uuid → Db → List TimelineEventRecord
unfolding sort_by
case_timeline organization_id case_id db =
    sort_by (λ (a b : TimelineEventRecord). leb a.sequence_number b.sequence_number)
      (filter (λ (e : TimelineEventRecord). is_run_of organization_id case_id db e.analysis_run_id)
        db.timeline_events)

-- `order_by(created_at)` is the order in which the rows were added.
unfoldable pub case_contradictions : Uuid → Uuid → Db → List ContradictionRecord
case_contradictions organization_id case_id db =
    filter (λ (c : ContradictionRecord). is_run_of organization_id case_id db c.analysis_run_id)
      db.contradictions

abbrev pub is_temporal : PageRecord → Bool
is_temporal r = contains (codes "time") r.key || contains (codes "date") r.key

abbrev pub has_several : (Text × List PageRecord) → Bool
has_several g = several (map value_of g.1)

-- `a or b`
abbrev pub or_records : List PageRecord → List PageRecord → List PageRecord
or_records [] other = other
or_records (r ∷ rs) other = r ∷ rs

abbrev pub verify_notice : String
verify_notice = "\nAttorney verification required before any conclusion is drawn."

module _ (python : Python) (show_date : ℕ → Text) (all_rows : List Source) where
  -- `is_timeline`, of the events of the case's runs and the temporal records.
  unfoldable pub timeline_text : List TimelineEventRecord → List PageRecord → Text
  unfolding join
  timeline_text (ev ∷ events) time_recs = lines_text (
      codes "Complete chronology from analysed timeline records:\n"
      ∷ map (event_line all_rows show_date) (ev ∷ events))
  timeline_text [] (r ∷ rs) = lines_text (
      codes
        "Chronology reconstructed from extracted document records (attorney verification required):\n"
      ∷ map (time_line python) (take 15 (r ∷ rs)))
  timeline_text [] [] =
      codes
        "No timeline records found in the extracted pages. Run analysis first to generate a structured chronology."

  -- `is_contradiction`, of the contradictions of the case's runs and the keys with several values.
  unfoldable pub contradiction_text : List ContradictionRecord → Groups → Text
  unfolding join
  contradiction_text (c ∷ cs) conflicts = lines_text (
      codes "Source-grounded contradictions detected in this case:\n"
      ∷ (flatten (map (contradiction_lines all_rows) (c ∷ cs)) ++ codes verify_notice ∷ []))
  contradiction_text [] (g ∷ gs) = lines_text (
      codes
        "Extractive contradiction analysis from document RECORD fields (attorney verification required):\n"
      ∷ flatten (map (conflict_lines python) (g ∷ gs)))
  contradiction_text [] [] =
      codes
        "No contradictions were detected in the extracted records for this question. Run analysis to generate structured contradiction records."

-- `by_doc` of the records, or of the selected pages if it has fewer than two documents.
abbrev pub document_name : PageRecord → Text
document_name r = codes r.source.1.original_filename

unfoldable pub records_by_page : Groups → List Source → Groups
unfolding extend_group extract_records
records_by_page groups [] = groups
records_by_page groups (s ∷ ss) =
    records_by_page (extend_group (codes s.1.original_filename) (extract_records (s ∷ [])) groups)
      ss

unfoldable pub by_document : List Source → Groups
unfolding group_records records_by_page extract_records
by_document selected =
    let grouped = group_records document_name [] (extract_records selected) in
    if ltb (length grouped) 2 then records_by_page [] selected else grouped

abbrev pub keys_of : Groups → List Text
keys_of documents = sort_by text_le (
    without [] (
      map (λ (r : PageRecord). r.key)
        (flatten (map (λ (g : Text × List PageRecord). g.1) documents))))

module _ (python : Python) (selected : List Source) where
  -- `is_report`
  unfoldable pub report_text : Text → Text
  unfolding join extract_records is_timeline is_contradiction
  report_text lowered =
      let fmt = if contains (codes "docx") lowered then codes "DOCX" else codes "PDF" in
      let subject =
        if is_timeline lowered
        then codes "chronology"
        else if is_contradiction lowered
        then codes "contradiction"
        else codes "case summary" in
      let bullets = map (bullet python) (take 12 (extract_records selected)) in
      let body =
        if is_empty bullets
        then codes "(No RECORD entries found in selected pages.)"
        else lines_text bullets in
      flatten (
        codes "Demonstration "
        ∷ fmt
        ∷ codes " "
        ∷ subject
        ∷ codes
            " report content — attorney review required before any filing.\n\nSource-linked observations from extracted pages:\n"
        ∷ body
        ∷ codes "\n\nTo download the actual "
        ∷ fmt
        ∷ codes
            ", use the Motion Studio export buttons after attorney approval. This Copilot response is text-only and does not generate binary files directly."
        ∷ [])

  abbrev pub comparison_heading : String
  comparison_heading = "Comparison of extracted RECORD values across documents:\n"

  -- A line for each key and the lines of its values, of the first four documents.
  abbrev pub compared : Groups → List Text
  compared documents =
      flatten (map (comparison_lines python selected (take 4 documents)) (keys_of documents))
      ++ codes "\nAttorney must verify all observations against the original documents." ∷ []

  -- `is_compare`
  unfoldable pub comparison_text : Text
  unfolding join by_document sort_by
  comparison_text =
      let documents = by_document selected in
      if ltb (length documents) 2
      then codes
          "At least two documents are needed for a comparison. Mention the filenames to target specific documents."
      else lines_text (codes comparison_heading ∷ compared documents)

  -- `is_summary`
  unfoldable pub summary_text : Text
  unfolding join group_records extract_records sort_by
  summary_text =
      let groups = sort_by group_le (by_key (extract_records selected)) in
      let found = flatten (map (summary_lines python) groups) in
      lines_text (
        codes
          "Case summary from extracted source pages (synthetic demonstration — attorney review required):\n"
        ∷ ((if is_empty found
              then map (λ s. codes "• " ++ page_excerpt 300 s) (take 4 selected)
              else found)
            ++ codes "\nNo source, no claim. Attorney must verify every observation." ∷ []))

  -- The last route: the records that have a token of the question, or the first ones.
  unfoldable pub targeted_text : Text → Text
  unfolding join extract_records relevant_tokens
  targeted_text lowered =
      let recs = extract_records selected in
      let matching = filter (matches python (relevant_tokens lowered)) recs in
      let chosen = or_records (take 8 matching) (take 8 recs) in
      if is_empty chosen
      then flatten (
          codes "Closest extracted page excerpts for your question:\n"
          ∷ lines_text (map (page_excerpt 300) (take 4 selected))
          ∷ codes "\n\nAttorney verification required."
          ∷ [])
      else flatten (
          codes "The retrieved case records contain these source-linked observations:\n"
          ∷ lines_text (map (bullet python) chosen)
          ∷ codes "\n\nAttorney must verify every observation against the originals."
          ∷ [])

  -- The single-file route, of the pages of the file.
  abbrev pub file_heading : List Source → Text
  file_heading [] = []
  file_heading (s ∷ _) =
      flatten (codes "Source-linked summary of " ∷ codes s.1.original_filename ∷ codes ":\n" ∷ [])

  unfoldable pub file_text : Text
  unfolding join extract_records
  file_text =
      let recs = extract_records selected in
      if is_empty recs
      then lines_text (map (page_excerpt 400) (take 3 selected))
      else lines_text
          (file_heading selected ∷ (map (bullet python) recs ++ codes verify_notice ∷ []))
