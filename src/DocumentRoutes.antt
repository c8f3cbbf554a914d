-- ===== src/DocumentRoutes.antt =====
-- Document routes: create_document_metadata of server/app/api/routes/documents.py and what the others
-- do to the rows; `Uploads` and `Downloads` have the routes that read or change stored files.
pub mod Contents
pub mod World
pub mod Records
pub mod Uploads
pub mod Downloads
pub mod Stored
pub mod Uploaded
pub mod Deleted
pub mod Tests
use legal_bridge.Prelude.{
  ℕ, String, Bool, false, map, update_where, Option, none, some, List, [], ◌∷◌, ◌++◌, ◌&&◌, ◌==◌,
  not, str_eq, find, any, all, filter, if◌then◌else◌,
}
use legal_bridge.Store.Schema.{
  Uuid, DateTime, Text, admin, attorney, ExtractionStatus, DocumentRecord, CitationCheckRecord,
  CaseFact, TimelineEventRecord, ContradictionRecord, ProceduralFinding, AuditEvent, name, Metadata,
  plain, Db,
}
use legal_bridge.Store.Session.{
  ApplicationError, Action, ◌>>=◌, ◌>>◌, pure, raise, query, modify, commit, rollback, or_raise,
  raise_if, add_audit_event,
}
use legal_bridge.Config.{Settings}
use legal_bridge.Auth.Principal.{Principal, require_roles}
use legal_bridge.Cases.{get_organization_case}
use legal_bridge.Extraction.Formats.{Readers}
use legal_bridge.Processing.{
  StorageService, stored_key, delete_pages, cleared, document_audit_metadata, process_document,
}

pub record DocumentMetadataCreate : Type 0 where
  pub original_filename : String
  pub content_type : String
  pub size_bytes : ℕ
  pub sha256 : String
  pub category : String

abbrev pub document_not_found : ApplicationError
document_not_found = record {
  status_code = 404;
  code = "document_not_found";
  message = "Document not found.";
}

abbrev pub duplicate_document : ApplicationError
duplicate_document = record {
  status_code = 409;
  code = "duplicate_document_sha256";
  message = "Document metadata with this SHA-256 already exists for the case.";
}

unfoldable pub document_editor : Principal → Action Principal
document_editor = require_roles (admin ∷ attorney ∷ [])

abbrev pub is_document : Uuid → Uuid → Uuid → DocumentRecord → Bool
is_document organization_id case_id document_id d =
    (d.id == document_id) && (d.organization_id == organization_id) && (d.case_id == case_id)

unfoldable pub get_document : Uuid → Uuid → Uuid → Action DocumentRecord
get_document organization_id case_id document_id = do
  row ← query (λ db. find (is_document organization_id case_id document_id) db.documents)
  or_raise row document_not_found

-- The unique index on the case and the content.
abbrev pub same_content : DocumentRecord → DocumentRecord → Bool
same_content a b = (a.case_id == b.case_id) && str_eq a.sha256 b.sha256

abbrev pub new_document : Uuid → Uuid → DocumentMetadataCreate → Principal → DocumentRecord
new_document new_id case_id payload principal = record {
  id = new_id;
  organization_id = principal.organization.id;
  case_id = case_id;
  original_filename = payload.original_filename;
  content_type = payload.content_type;
  size_bytes = payload.size_bytes;
  sha256 = payload.sha256;
  category = payload.category;
  status = "metadata_only";
  storage_key = none;
  storage_backend = none;
  extraction_status = ExtractionStatus.metadata_only;
  parser_name = none;
  parser_version = none;
  page_count = 0;
  extracted_character_count = 0;
  extraction_error = none;
  processed_at = none;
  original_uploaded_at = none;
  created_by_id = principal.user.id;
}

abbrev pub route_event :
    Principal
    → Uuid
    → Uuid
    → String
    → String
    → List (record { key : String; value : Metadata })
    → AuditEvent
route_event principal case_id document_id event_type message metadata = record {
  organization_id = principal.organization.id;
  case_id = some case_id;
  actor_user_id = some principal.user.id;
  event_type = event_type;
  message = plain message;
  entity_type = "document_record";
  entity_id = document_id;
  metadata_json = metadata;
}

-- `session.flush()` of a new document.
unfoldable pub flush_document : DocumentRecord → Action (Unit {0})
flush_document d = do
  duplicate ← query (λ db. any (same_content d) db.documents)
  if duplicate
      then rollback >> raise duplicate_document
      else modify (λ db. record db { documents = db.documents ++ d ∷ [] })

unfoldable pub create_document_metadata :
    Uuid → Uuid → DocumentMetadataCreate → Principal → Action DocumentRecord
create_document_metadata new_id case_id payload sender = do
  principal ← document_editor sender
  legal_case ← get_organization_case principal.organization.id case_id
  let d = new_document new_id case_id payload principal
  duplicate ← query (λ db. any (same_content d) db.documents)
  raise_if duplicate duplicate_document
  flush_document d
  add_audit_event (
      route_event principal case_id d.id "document_metadata_creation"
        "Document metadata created; no binary content was accepted."
        (record { key = "filename"; value = name d.original_filename } ∷ []))
  commit
  pure d

abbrev pub refers : Uuid → CitationCheckRecord → Bool
refers document_id check = elim check.source_document_id [
  | none ↦ false
  | some id ↦ id == document_id
]

-- The references of the findings to documents, without those that are gone.
abbrev pub clear_document_references : (Uuid → Bool) → Db → Db
clear_document_references gone db = record db {
  case_facts =
      map (λ (f : CaseFact). record f { source_document_id = cleared gone f.source_document_id })
        db.case_facts;
  timeline_events =
      map
        (λ (e : TimelineEventRecord). record e {
          source_document_id = cleared gone e.source_document_id;
        })
        db.timeline_events;
  contradictions =
      map
        (λ (c : ContradictionRecord). record c {
          source_a_document_id = cleared gone c.source_a_document_id;
          source_b_document_id = cleared gone c.source_b_document_id;
        })
        db.contradictions;
  procedural_findings =
      map
        (λ (f : ProceduralFinding). record f {
          source_document_id = cleared gone f.source_document_id;
        })
        db.procedural_findings;
}

-- `session.delete(record)`: the pages go with the document, and nothing refers to it any longer.
abbrev pub delete_record : Uuid → Db → Db
delete_record document_id db =
    let db' = clear_document_references (λ id. id == document_id) (delete_pages document_id db) in
    record db' {
      documents = filter (λ d. not (d.id == document_id)) db.documents;
      citation_checks =
          update_where (refers document_id) (λ check. record check { source_document_id = none })
            db'.citation_checks;
    }

-- The rows of a deletion.
abbrev pub delete_rows : Uuid → Uuid → Principal → DocumentRecord → Action (Unit {0})
delete_rows case_id document_id principal row = do
  modify (delete_record row.id)
  add_audit_event (
      route_event principal case_id document_id "document_deleted"
        "Document record, extracted pages, and stored binary deleted."
        (document_audit_metadata row))
  commit
