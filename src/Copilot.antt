-- ===== src/Copilot.antt =====
-- server/app/services/platform.py: what the copilot takes from the pages of a case before it answers:
-- their records, the references to pages, and the references without repetition.
pub mod Questions
pub mod Usable
pub mod Nim
pub mod Groups
pub mod Lines
pub mod Similar
pub mod Answers
pub mod Extractive
pub mod Grounding
pub mod References
pub mod Answering
pub mod Routes
pub mod Reports
pub mod Tests
use legal_bridge.Prelude.{
  String, true, List, [], ◌∷◌, ◌++◌, any, map, codes, decimal, text_eq, if◌then◌else◌,
}
use legal_bridge.Store.Schema.{Uuid, Text, Reference, Db}
use legal_bridge.Extraction.Texts.{strip}
use legal_bridge.Analysis.Patterns.{Fields, find_records}
use legal_bridge.Analysis.Observations.{Source, load_sources}

pub record PageRecord : Type 0 where
  pub key : Text
  pub value : Text
  pub detail : Text
  pub source : Source

abbrev pub page_record : Source → Fields → PageRecord
page_record source fields = record {
  key = strip fields.key;
  value = strip fields.value;
  detail = strip fields.detail;
  source = source;
}

-- `_extract_records`
unfoldable pub extract_records : List Source → List PageRecord
unfolding find_records strip
extract_records [] = []
extract_records (source ∷ sources) =
    map (page_record source) (find_records true 0 source.0.extracted_text)
    ++ extract_records sources

-- `_ref`
abbrev pub reference : Source → Reference
reference (page, document) = record {
  document_id = document.id;
  page_id = page.id;
  label = codes document.original_filename ++ (codes " p." ++ decimal page.page_number);
  filename = document.original_filename;
  page_number = decimal page.page_number;
}

-- `_dedup_refs`, behind the labels that were seen.
unfoldable pub dedup_refs : List Text → List Reference → List Reference
dedup_refs seen [] = []
dedup_refs seen (r ∷ refs) =
    let old = dedup_refs seen refs in
    let new = r ∷ dedup_refs (r.label ∷ seen) refs in
    if any (text_eq r.label) seen then old else new

-- `_load_all_pages`, the query of `_load_sources`.
abbrev pub load_all_pages : Uuid → Uuid → Db → List Source
load_all_pages = load_sources

pub record Answer : Type 0 where
  pub answer : Text
  pub references : List Reference
