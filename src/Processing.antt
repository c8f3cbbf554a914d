-- ===== src/Processing.antt =====
-- server/app/services/document_processing.py: a stored document is extracted, its pages are
-- replaced, and the life cycle of its record and the audit log are kept. The storage service's
-- lookup of a key is a parameter, as are the readers of the extraction. The record that the code
-- changes in place is returned with the result.
pub mod Saved
pub mod Replaced
pub mod Unlinked
pub mod Tests
use legal_bridge.Prelude.{
  ℕ, ◌+◌, String, Bool, true, false, Option, any, ◌&&◌, none, some, List, [], ◌∷◌, ◌++◌, ◌==◌, not,
  str_eq, filter, length, take, map, update_where, codes, join, if◌then◌else◌,
}
use legal_bridge.Store.Schema.{
  Uuid, DateTime, Text, ExtractionStatus, DocumentRecord, DocumentPage, AuditEvent,
  CitationCheckRecord, CaseFact, TimelineEventRecord, ContradictionRecord, ProceduralFinding,
  Metadata, number, name, plain, Db,
}
use legal_bridge.Store.Session.{
  ApplicationError, Action, ◌>>=◌, ◌>>◌, pure, modify, commit, or_raise, add_audit_event,
}
use legal_bridge.Config.{Settings}
use legal_bridge.Extraction.Pages.{ExtractedPage, ExtractionResult, character_count}
use legal_bridge.Extraction.Formats.{Readers}
use legal_bridge.Extraction.Documents.{extract_document}

-- The answer to an exception that no handler names, here FileNotFoundError.
abbrev pub unexpected_error : ApplicationError
unexpected_error = record {
  status_code = 500;
  code = "internal_error";
  message = "An unexpected server error occurred.";
}

abbrev pub extraction_status_value : ExtractionStatus → String
extraction_status_value ExtractionStatus.metadata_only = "metadata_only"
extraction_status_value ExtractionStatus.uploaded = "uploaded"
extraction_status_value ExtractionStatus.processing = "processing"
extraction_status_value ExtractionStatus.processed = "processed"
extraction_status_value ExtractionStatus.partially_processed = "partially_processed"
extraction_status_value ExtractionStatus.ocr_required = "ocr_required"
extraction_status_value ExtractionStatus.failed = "failed"

abbrev pub or_not_assigned : Option String → String
or_not_assigned none = "not_assigned"
or_not_assigned (some parser) = if str_eq parser "" then "not_assigned" else parser

abbrev pub document_audit_metadata :
    DocumentRecord → List (record { key : String; value : Metadata })
document_audit_metadata d =
    record { key = "document_id"; value = number d.id }
    ∷ record { key = "original_filename"; value = name d.original_filename }
    ∷ record { key = "category"; value = name d.category }
    ∷ record { key = "size_bytes"; value = number d.size_bytes }
    ∷ record { key = "sha256"; value = name d.sha256 }
    ∷ record {
      key = "extraction_status";
      value = name (extraction_status_value d.extraction_status);
    }
    ∷ record { key = "page_count"; value = number d.page_count }
    ∷ record { key = "character_count"; value = number d.extracted_character_count }
    ∷ record { key = "parser_name"; value = name (or_not_assigned d.parser_name) }
    ∷ []

abbrev pub final_event : ExtractionStatus → String × String
final_event ExtractionStatus.processed =
    ("document_extracted", "Document source text extracted and persisted.")
final_event ExtractionStatus.partially_processed = (
  "document_partially_processed",
  "Document source text was partially extracted; review the warnings.",
)
final_event ExtractionStatus.ocr_required =
    ("document_ocr_required", "Document pages require OCR that is unavailable or disabled.")
final_event _ = ("document_extraction_failed", "Document source extraction failed.")

abbrev pub document_event : Option Uuid → DocumentRecord → String × String → AuditEvent
document_event actor_user_id d (event_type, message) = record {
  organization_id = d.organization_id;
  case_id = some d.case_id;
  actor_user_id = actor_user_id;
  event_type = event_type;
  message = plain message;
  entity_type = "document_record";
  entity_id = d.id;
  metadata_json = document_audit_metadata d;
}

abbrev pub save_document : DocumentRecord → Db → Db
save_document d db = record db {
  documents = update_where (λ r. r.id == d.id) (λ _. d) db.documents;
}

abbrev pub of_document : Uuid → DocumentPage → Bool
of_document document_id p = p.document_id == document_id

-- Whether the check refers to a page of the document.
abbrev pub cites : Uuid → List DocumentPage → CitationCheckRecord → Bool
cites document_id pages check = elim check.source_page_id [
  | none ↦ false
  | some page_id ↦ any (λ p. of_document document_id p && (p.id == page_id)) pages
]

-- A reference that is cleared if its row is gone: `ondelete="SET NULL"`.
abbrev pub cleared : (Uuid → Bool) → Option Uuid → Option Uuid
cleared gone none = none
cleared gone (some id) = if gone id then none else some id

-- The references of the findings to pages, without those that are gone.
abbrev pub clear_page_references : (Uuid → Bool) → Db → Db
clear_page_references gone db = record db {
  case_facts =
      map (λ (f : CaseFact). record f { source_page_id = cleared gone f.source_page_id })
        db.case_facts;
  timeline_events =
      map (λ (e : TimelineEventRecord). record e { source_page_id = cleared gone e.source_page_id })
        db.timeline_events;
  contradictions =
      map
        (λ (c : ContradictionRecord). record c {
          source_a_page_id = cleared gone c.source_a_page_id;
          source_b_page_id = cleared gone c.source_b_page_id;
        })
        db.contradictions;
  procedural_findings =
      map (λ (f : ProceduralFinding). record f { source_page_id = cleared gone f.source_page_id })
        db.procedural_findings;
}

abbrev pub is_page_of : Uuid → List DocumentPage → Uuid → Bool
is_page_of document_id pages page_id =
    any (λ p. of_document document_id p && (p.id == page_id)) pages

-- The pages of a document are deleted, and nothing refers to them any longer.
abbrev pub delete_pages : Uuid → Db → Db
delete_pages document_id db =
    let db' = clear_page_references (is_page_of document_id db.document_pages) db in
    record db' {
      document_pages = filter (λ p. not (of_document document_id p)) db.document_pages;
      citation_checks =
          update_where (cites document_id db.document_pages)
            (λ check. record check { source_page_id = none }) db.citation_checks;
    }

-- The rows of the extracted pages. `fresh` gives each its identifier.
unfoldable pub page_rows :
    DateTime → (ℕ → Uuid) → DocumentRecord → ℕ → List ExtractedPage → List DocumentPage
page_rows now fresh d index [] = []
page_rows now fresh d index (page ∷ pages) =
    record {
      id = fresh index;
      organization_id = d.organization_id;
      case_id = d.case_id;
      document_id = d.id;
      page_number = page.page_number;
      page_label = page.page_label;
      extracted_text = page.extracted_text;
      character_count = character_count page;
      extraction_method = page.extraction_method;
      created_at = now;
    }
    ∷ page_rows now fresh d (index + 1) pages

abbrev pub add_pages : List DocumentPage → Db → Db
add_pages rows db = record db { document_pages = db.document_pages ++ rows }

abbrev pub started : DocumentRecord → DocumentRecord
started d = record d {
  extraction_status = ExtractionStatus.processing;
  extraction_error = none;
  page_count = 0;
  extracted_character_count = 0;
}

-- An error, or the warnings, of which at most 2,000 characters are kept.
abbrev pub error_text : Option String → List Text → Option Text
error_text (some e) warnings = some (codes e)
error_text none [] = none
error_text none (w ∷ ws) = some (take 2000 (join (codes " ") (w ∷ ws)))

abbrev pub finished : DateTime → ExtractionResult → DocumentRecord → DocumentRecord
finished now result d = record d {
  extraction_status = result.status;
  parser_name = some result.parser_name;
  parser_version = some result.parser_version;
  page_count = length result.pages;
  extracted_character_count = result.total_characters;
  extraction_error = error_text result.error result.warnings;
  processed_at = some now;
}

-- `path_for_key`: none where it raises.
pub record StorageService : Type 0 where
  pub path_for_key : String → Option Text

abbrev pub stored_key : Option String → Option String
stored_key none = none
stored_key (some key) = if str_eq key "" then none else some key

module _ (readers : Readers) (storage : StorageService) (settings : Settings) where
  unfoldable pub process_document :
      DateTime
      → (ℕ → Uuid)
      → Option Uuid
      → DocumentRecord
      → Action (DocumentRecord × ExtractionResult)
  unfolding page_rows extract_document
  process_document now fresh actor_user_id row = do
    key ← or_raise (stored_key row.storage_key) unexpected_error
    source_path ← or_raise (storage.path_for_key key) unexpected_error
    modify (delete_pages row.id)
    let begun = started row
    modify (save_document begun)
    add_audit_event (
        document_event actor_user_id begun
          ("document_extraction_started", "Document source extraction started."))
    commit
    let result = extract_document readers source_path begun.content_type settings
    modify (add_pages (page_rows now fresh begun 0 result.pages))
    let ended = finished now result begun
    modify (save_document ended)
    add_audit_event (document_event actor_user_id ended (final_event result.status))
    commit
    pure (ended, result)
