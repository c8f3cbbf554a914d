-- ===== src/Copilot/Answering.antt =====
-- server/app/services/platform.py: `copilot_answer`. What the code takes from elsewhere is the record
-- `Services`: Python's tables of characters, the scores, dates as texts, the settings and the client
-- of the language model service.
use legal_bridge.Prelude.{ℕ, List, [], map, codes, if◌then◌else◌}
use legal_bridge.Store.Schema.{Uuid, Text}
use legal_bridge.Store.Session.{Action, ◌>>=◌, pure, raise, query}
use legal_bridge.Extraction.Sections.{is_empty}
use legal_bridge.Extraction.Pages.{without}
use legal_bridge.Processing.{unexpected_error}
use legal_bridge.Analysis.Patterns.{Python}
use legal_bridge.Analysis.Observations.{Source}
use legal_bridge.Copilot.{PageRecord, Answer, extract_records, load_all_pages}
use legal_bridge.Copilot.Questions.{
  Relevance, is_similar, is_broad, mentioned_filenames, candidates, selected_pages, references_of,
}
use legal_bridge.Copilot.Nim.{
  NimSettings, NimClient, NimOutcome, answered, fallback, raised, nvidia_nim_answer,
}
use legal_bridge.Copilot.Similar.{similar_cases, similar_answer}
use legal_bridge.Copilot.Extractive.{extractive_answer}

pub record Services : Type 0 where
  pub python : Python
  pub relevance : Relevance
  pub show_date : ℕ → Text
  pub settings : NimSettings
  pub client : NimClient

abbrev pub no_pages : Answer
no_pages = record {
  answer =
      codes
        "No extracted source pages exist for this case yet. Upload and process documents, then run analysis before asking Copilot questions.";
  references = [];
}

abbrev pub no_support : Answer
no_support = record {
  answer =
      codes
        "I could not find supporting records for that question in the uploaded case files. Verify that documents have been uploaded and that extraction completed successfully.";
  references = [];
}

module _ (services : Services) (organization_id case_id : Uuid) (question : Text) where
  open services use {python, relevance, show_date, settings, client}

  abbrev pub lowered : Text
  lowered = python.casefold question

  abbrev pub topics_of : List Source → List Text
  topics_of all_rows = without [] (map (λ (r : PageRecord). r.key) (extract_records all_rows))

  -- `scored[:top_n]`
  unfoldable pub selected_for : List Source → List Source
  unfolding selected_pages candidates mentioned_filenames is_broad
  selected_for all_rows =
      selected_pages relevance question (is_broad lowered)
        (candidates python (mentioned_filenames python lowered all_rows) all_rows)

  -- Behind the language model: its answer, an extractive one, or its exception.
  unfoldable pub answer_behind : List Source → List Source → NimOutcome → Action Answer
  unfolding extractive_answer
  answer_behind all_rows selected (answered text) =
      pure (record { answer = text; references = references_of selected })
  answer_behind all_rows selected fallback =
      query (extractive_answer python show_date organization_id case_id all_rows lowered selected)
  answer_behind all_rows selected raised = raise unexpected_error

  unfoldable pub answer_from : List Source → Action Answer
  unfolding selected_for answer_behind nvidia_nim_answer similar_cases similar_answer
      extract_records is_similar
  answer_from all_rows =
      let selected = selected_for all_rows in
      if is_empty all_rows
      then pure no_pages
      else if is_similar lowered
      then query (λ db.
        similar_answer (similar_cases python organization_id case_id (topics_of all_rows) db))
      else if is_empty selected
      then pure no_support
      else answer_behind all_rows selected
          (nvidia_nim_answer python settings client question selected).0

  unfoldable pub copilot_answer : Action Answer
  unfolding answer_from
  copilot_answer = do
    all_rows ← query (load_all_pages organization_id case_id)
    answer_from all_rows
