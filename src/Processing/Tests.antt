-- ===== src/Processing/Tests.antt =====
-- The document processing at a stored text that had pages before.
use legal_bridge.Prelude.{
  update_where, ◌==◌, ◌+◌, ◌≤◌, none, some, [], ◌∷◌, ◌≡◌, refl, false, any, filter, codes, map,
}
use legal_bridge.Store.Schema.{
  ExtractionStatus, DocumentRecord, DocumentPage, CitationCheckRecord, CheckStatus, Db,
}
use legal_bridge.Store.Session.{ok, request}
use legal_bridge.Cases.Tests.{with_cases}
use legal_bridge.Extraction.Pages.{ExtractionResult}
use legal_bridge.Extraction.Tests.{readers, tight}
use legal_bridge.Extraction.Documents.{extract_document}
use legal_bridge.Processing.{
  StorageService, process_document, of_document, cites, finished, started,
}
use legal_bridge.Processing.Unlinked.{check_status, processing_unlinks_citations}
use legal_bridge.Processing.Replaced.{Agrees, process_document_replaces}

abbrev storage : StorageService
storage = record { path_for_key = λ key. some (codes key) }

-- The stand-in reader of texts reads the key itself.
abbrev pub statement : DocumentRecord
statement = record {
  id = 40;
  organization_id = 10;
  case_id = 50;
  original_filename = "statement.txt";
  content_type = "text/plain";
  size_bytes = 8;
  sha256 = "00";
  category = "evidence";
  status = "metadata_only";
  storage_key = some "a\n\nbcdefgh";
  storage_backend = some "local_private";
  extraction_status = ExtractionStatus.uploaded;
  parser_name = none;
  parser_version = none;
  page_count = 0;
  extracted_character_count = 0;
  extraction_error = none;
  processed_at = none;
  original_uploaded_at = some 900;
  created_by_id = 1;
}

abbrev pub old_page : DocumentPage
old_page = record {
  id = 45;
  organization_id = 10;
  case_id = 50;
  document_id = 40;
  page_number = 1;
  page_label = codes "Logical text page 1";
  extracted_text = codes "old";
  character_count = 3;
  extraction_method = "txt_logical_page";
  created_at = 900;
}

abbrev cited : CitationCheckRecord
cited = record {
  organization_id = 10;
  case_id = 50;
  motion_version_id = some 80;
  citation_text = codes "statement.txt, page 1";
  authority_id = none;
  source_document_id = some 40;
  source_page_id = some 45;
  status = CheckStatus.verified_source;
  message = "Stored document-page reference verified.";
}

abbrev pub stored : Db
stored = record with_cases {
  documents = statement ∷ [];
  document_pages = old_page ∷ [];
  citation_checks = cited ∷ [];
}

abbrev after_processing : Db
after_processing =
    (request (process_document readers storage tight 1000 (λ n. 90 + n) (some 1) statement)
      stored).1

abbrev result_of_statement : ExtractionResult
result_of_statement = extract_document readers (codes "a\n\nbcdefgh") "text/plain" tight

abbrev processed_statement : DocumentRecord
processed_statement = finished 1000 result_of_statement (started statement)

processes :
    request (process_document readers storage tight 1000 (λ n. 90 + n) (some 1) statement) stored
    ≡ (ok (processed_statement, result_of_statement), after_processing)
unfolding process_document
processes = refl

texts :
    map (λ (p : DocumentPage). p.extracted_text) after_processing.document_pages
    ≡ codes "a" ∷ codes "bcdefg" ∷ []
unfolding process_document
texts = refl

process_document_replaces_example :
    Agrees processed_statement result_of_statement
      (filter (of_document 40) after_processing.document_pages)
    × (processed_statement.extracted_character_count ≤ 10)
    × (processed_statement.extraction_status ≡ result_of_statement.status)
    × (after_processing.documents
        ≡ update_where (λ r. r.id == 40) (λ _. processed_statement) stored.documents)
process_document_replaces_example =
    process_document_replaces readers storage tight 1000 (λ n. 90 + n) (some 1) statement stored
      after_processing processed_statement result_of_statement processes

processing_unlinks_citations_example :
    (any (cites 40 (old_page ∷ [])) after_processing.citation_checks ≡ false)
    × (map check_status after_processing.citation_checks ≡ CheckStatus.verified_source ∷ [])
processing_unlinks_citations_example =
    processing_unlinks_citations readers storage tight 1000 (λ n. 90 + n) (some 1) statement stored
      after_processing (processed_statement, result_of_statement) processes
