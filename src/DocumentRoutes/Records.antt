-- ===== src/DocumentRoutes/Records.antt =====
-- server/app/api/routes/documents.py: the errors, events and rows of an upload.
use Prim.Native.Char.{code}
use Prim.Native.String.{String}
use legal_bridge.Prelude.{Option, none, some, [], ◌∷◌, ◌&&◌, str_eq, if◌then◌else◌}
use legal_bridge.Store.Schema.{
  Uuid, DateTime, ExtractionStatus, DocumentRecord, AuditEvent, name, number,
}
use legal_bridge.Store.Session.{ApplicationError, commit, add_audit_event}
use legal_bridge.DocumentRoutes.World.{Route, ◌>>◌, lift}
use legal_bridge.Auth.Principal.{Principal}
use legal_bridge.Extraction.Formats.{Readers}
use legal_bridge.Extraction.Texts.{is_space}
use legal_bridge.Storage.{Bytes, Files, StagedUpload}
use legal_bridge.Storage.Signatures.{Decoders}
use legal_bridge.Storage.Staging.{UploadFile}
use legal_bridge.DocumentRoutes.{route_event}

-- `str.strip`
abbrev pub lstrip_string : String → String
lstrip_string String.[] = String.[]
lstrip_string (String.◌∷◌ c s) =
    let rest = lstrip_string s in if is_space (code c) then rest else String.◌∷◌ c s

abbrev pub rstrip_string : String → String
rstrip_string String.[] = String.[]
rstrip_string (String.◌∷◌ c s) =
    let rest = rstrip_string s in
    if str_eq rest "" && is_space (code c) then String.[] else String.◌∷◌ c rest

-- `category.strip()`
abbrev pub normalized_category : String → String
normalized_category category = lstrip_string (rstrip_string category)

-- What the routes use of other libraries: the digest, the decoders and readers, and the text of an
-- identifier.
pub record Host : Type 0 where
  pub decoders : Decoders
  pub sha256 : Bytes → String
  pub readers : Files → Readers
  pub uuid_text : Uuid → String

abbrev pub or_name : Option String → String → String
or_name none other = other
or_name (some t) other = if str_eq t "" then other else t

abbrev pub invalid_category : ApplicationError
invalid_category = record {
  status_code = 422;
  code = "invalid_category";
  message = "Document category must not be blank.";
}

abbrev pub duplicate_binary : ApplicationError
duplicate_binary = record {
  status_code = 409;
  code = "duplicate_document_sha256";
  message = "This binary content already exists in the case.";
}

abbrev pub started_event : Principal → Uuid → Uuid → String → UploadFile → AuditEvent
started_event principal case_id document_id category file =
    route_event principal case_id document_id "document_upload_started" "Document upload started." (
      record { key = "document_id"; value = number document_id }
      ∷ record { key = "category"; value = name category }
      ∷ record { key = "declared_content_type"; value = name (or_name file.content_type "missing") }
      ∷ [])

abbrev pub validation_event : Principal → Uuid → Uuid → String → Option String → AuditEvent
validation_event principal case_id document_id reason declared_content_type =
    route_event principal case_id document_id "document_validation_failed"
      "Document upload validation failed."
      (record { key = "document_id"; value = number document_id }
        ∷ record { key = "reason_code"; value = name reason }
        ∷ record {
          key = "declared_content_type";
          value = name (or_name declared_content_type "missing");
        }
        ∷ [])

-- `_record_validation_failure`
abbrev pub record_validation_failure :
    Principal → Uuid → Uuid → String → Option String → Route (Unit {0})
record_validation_failure principal case_id document_id reason declared_content_type = do
  lift (
      add_audit_event (validation_event principal case_id document_id reason declared_content_type))
  lift commit

abbrev pub uploaded_document :
    Uuid
    → Uuid
    → UploadFile
    → String
    → StagedUpload
    → String
    → DateTime
    → Principal
    → DocumentRecord
uploaded_document document_id case_id file category staged storage_key now principal = record {
  id = document_id;
  organization_id = principal.organization.id;
  case_id = case_id;
  original_filename = or_name file.filename "document";
  content_type = staged.content_type;
  size_bytes = staged.size_bytes;
  sha256 = staged.sha256;
  category = category;
  status = "metadata_only";
  storage_key = some storage_key;
  storage_backend = some "local_private";
  extraction_status = ExtractionStatus.uploaded;
  parser_name = none;
  parser_version = none;
  page_count = 0;
  extracted_character_count = 0;
  extraction_error = none;
  processed_at = none;
  original_uploaded_at = some now;
  created_by_id = principal.user.id;
}

-- The files behind `delete_key` of a key that was made by `finalize`.
abbrev pub or_same : Files → Option Files → Files
or_same files none = files
or_same files (some files') = files'
