-- ===== src/DocumentRoutes/Uploads.antt =====
-- server/app/api/routes/documents.py: upload_document, on the session and the files. The clock, fresh
-- identifiers and the fresh path of a temporary file are arguments.
use Prim.Native.String.{String}
use legal_bridge.Prelude.{ℕ, some, [], ◌∷◌, ◌++◌, any, str_eq, if◌then◌else◌}
use legal_bridge.Store.Schema.{Uuid, DateTime, Text, DocumentRecord}
use legal_bridge.Store.Session.{query, modify, commit, rollback, add_audit_event, raise_if}
use legal_bridge.DocumentRoutes.World.{Route, ◌>>=◌, ◌>>◌, lift, give, fail, on_files, read_files}
use legal_bridge.Config.{Settings}
use legal_bridge.Auth.Principal.{Principal}
use legal_bridge.Cases.{get_organization_case}
use legal_bridge.Processing.{
  StorageService, document_audit_metadata, process_document, unexpected_error,
}
use legal_bridge.Storage.{
  Files, StagedUpload, Finalized, path_for_key, finalize, delete_key, discard,
}
use legal_bridge.Storage.Validation.{Checked, valid, refused}
use legal_bridge.Storage.Staging.{UploadFile, stage_upload}
use legal_bridge.DocumentRoutes.{document_editor, same_content, route_event}
use legal_bridge.DocumentRoutes.Records.{
  normalized_category, Host, invalid_category, duplicate_binary, started_event,
  record_validation_failure, uploaded_document, or_same,
}

module _ (host : Host) (now : DateTime) (document_id case_id : Uuid) (file : UploadFile)
    (category : String) (principal : Principal) where
  -- `session.flush()` and what follows it, or the handler of IntegrityError.
  unfoldable pub add_uploaded : String → DocumentRecord → Route DocumentRecord
  unfolding delete_key
  add_uploaded storage_key d = do
    duplicate ← lift (query (λ db. any (same_content d) db.documents))
    if duplicate
        then (do
          lift rollback
          on_files (λ files. (tt, or_same files (delete_key (some storage_key) files)))
          fail duplicate_binary)
        else (do
          lift (modify (λ db. record db { documents = db.documents ++ d ∷ [] }))
          lift (
              add_audit_event (
                route_event principal case_id d.id "document_uploaded"
                  "Document binary stored privately after server validation."
                  (document_audit_metadata d)))
          lift commit
          give d)

  unfoldable pub store_finalized : StagedUpload → Finalized → Route DocumentRecord
  unfolding add_uploaded
  store_finalized staged Finalized.raised = lift rollback >> fail unexpected_error
  store_finalized staged (Finalized.stored storage_key files) = do
    on_files (λ _. (tt, files))
    add_uploaded storage_key
        (uploaded_document document_id case_id file category staged storage_key now principal)

  -- The body of `try` behind the staging.
  unfoldable pub store_staged : StagedUpload → Route DocumentRecord
  unfolding store_finalized finalize
  store_staged staged = do
    duplicate ← lift (
        query (λ db.
          any
            (same_content
              (uploaded_document document_id case_id file category staged "" now principal))
            db.documents))
    if duplicate
        then (do
          record_validation_failure principal case_id document_id "duplicate_document_sha256"
              file.content_type
          fail duplicate_binary)
        else (do
          finalized ← read_files (
              finalize staged (host.uuid_text principal.organization.id) (host.uuid_text case_id)
                (host.uuid_text document_id))
          store_finalized staged finalized)

  -- `finally: storage.discard(staged)`
  unfoldable pub finally_discard : StagedUpload → Route DocumentRecord → Route DocumentRecord
  finally_discard staged m w =
      let (r, w') = m w in (r, record w' { files = discard staged w'.files })

  unfoldable pub store_upload : Checked StagedUpload → Route DocumentRecord
  unfolding store_staged finally_discard
  store_upload (valid staged) = finally_discard staged (store_staged staged)
  store_upload (refused error) = do
    lift rollback
    record_validation_failure principal case_id document_id error.code file.content_type
    fail error

abbrev pub storage_of : Files → StorageService
storage_of files = record { path_for_key = path_for_key files }

module _ (host : Host) (settings : Settings) (now : DateTime) where
  -- `process_document` with the files as they are.
  unfoldable pub process_stored : (ℕ → Uuid) → Principal → DocumentRecord → Route DocumentRecord
  unfolding process_document path_for_key
  process_stored fresh principal d = do
    files ← read_files (λ files. files)
    processed ← lift (
        process_document (host.readers files) (storage_of files) settings now fresh
          (some principal.user.id) d)
    give processed.0

  -- The guards of `upload_document` and its first event.
  unfoldable pub begin_upload :
      Uuid → Uuid → UploadFile → String → Principal → Route (Principal × String)
  begin_upload document_id case_id file category sender = do
    principal ← lift (document_editor sender)
    lift (get_organization_case principal.organization.id case_id)
    let normalized = normalized_category category
    lift (raise_if (str_eq normalized "") invalid_category)
    lift (add_audit_event (started_event principal case_id document_id normalized file))
    lift commit
    give (principal, normalized)

  -- Its body, from the staging on.
  unfoldable pub receive_upload :
      Uuid → (ℕ → Uuid) → Text → Uuid → UploadFile → Principal × String → Route DocumentRecord
  unfolding stage_upload store_upload process_stored
  receive_upload document_id fresh temporary_path case_id file (principal, category) = do
    staged ←
        on_files
          (stage_upload host.decoders host.sha256 settings.max_upload_bytes temporary_path file)
    d ← store_upload host now document_id case_id file category principal staged
    process_stored fresh principal d

  unfoldable pub upload_document :
      Uuid → (ℕ → Uuid) → Text → Uuid → UploadFile → String → Principal → Route DocumentRecord
  unfolding begin_upload receive_upload
  upload_document document_id fresh temporary_path case_id file category sender = do
    begun ← begin_upload document_id case_id file category sender
    receive_upload document_id fresh temporary_path case_id file begun
