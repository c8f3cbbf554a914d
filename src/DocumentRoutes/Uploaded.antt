-- ===== src/DocumentRoutes/Uploaded.antt =====
-- What an upload that succeeds leaves in the storage.
use legal_bridge.Prelude.{
  ℕ, true, List, Mem, any, ◌==◌, String, Option, some, ◌≡◌, refl, subst, ◌∙◌,
}
use legal_bridge.Store.Schema.{Uuid, DateTime, Text, DocumentRecord}
use legal_bridge.Store.Session.{Session, Result, ok, err}
use legal_bridge.Config.{Settings}
use legal_bridge.Auth.Principal.{Principal}
use legal_bridge.Processing.{process_document}
use legal_bridge.Processing.Saved.{Saved, saved_in, process_document-Saved}
use legal_bridge.Extraction.Pages.{ExtractionResult}
use legal_bridge.Storage.{Bytes, Files, StagedUpload, read_file, resolve_key, discard}
use legal_bridge.Storage.Validation.{Checked, valid, refused}
use legal_bridge.Storage.Staging.{UploadFile, stage_upload}
use legal_bridge.Storage.Staging.Accepted.{upload_content, StageResult, stage_upload-StageResult}
use legal_bridge.DocumentRoutes.World.{World, Route, ◌>>=◌}
use legal_bridge.DocumentRoutes.Records.{Host}
use legal_bridge.DocumentRoutes.Uploads.{
  store_staged, finally_discard, store_upload, process_stored, storage_of, begin_upload,
  receive_upload, upload_document,
}
use legal_bridge.DocumentRoutes.Stored.{
  IsAdded, StoredResult, discarded-StoredResult, staged-StoredResult,
}

-- The document has a key, and the content stands at its path.
abbrev pub HasBinary : Bytes → Option String → Files → Type 0
HasBinary content storage_key files =
    (key : String) × (path : Text) × (storage_key ≡ some key)
    × (resolve_key key ≡ some path)
    × (read_file path files ≡ some content)

-- The document is the one that was asked for, and it is in the committed rows.
abbrev pub IsCommitted : Uuid → Uuid → DocumentRecord → Session → Type 0
IsCommitted document_id case_id d s =
    (d.id ≡ document_id) × (d.case_id ≡ case_id) × Mem d s.committed.documents

abbrev pub Uploaded : Bytes → Uuid → Uuid → Result DocumentRecord × World → Type 0
Uploaded content document_id case_id (err e, w) = Unit
Uploaded content document_id case_id (ok d, w) =
    HasBinary content d.storage_key w.files × IsCommitted document_id case_id d w.session

module _ (content : Bytes) (document_id case_id : Uuid) where
  bound-Uploaded :
      {A : Type 0} (f : A → Route DocumentRecord) (r : Result A) (w : World)
      → ((a : A) → Uploaded content document_id case_id (f a w))
      → Uploaded content document_id case_id (elim r [ ok a ↦ f a w | err e ↦ (err e, w) ])
  bound-Uploaded f (ok a) w h = h a
  bound-Uploaded f (err e) w h = tt

  -- What holds behind every outcome of a step holds behind the step.
  bind-Uploaded :
      {A : Type 0} (m : Route A) (f : A → Route DocumentRecord) (w : World)
      → ((a : A) (w' : World) → Uploaded content document_id case_id (f a w'))
      → Uploaded content document_id case_id ((m >>= f) w)
  bind-Uploaded m f w h = bound-Uploaded f (m w).0 (m w).1 (λ a. h a (m w).1)

  module _ (host : Host) (settings : Settings) (now : DateTime) (fresh : ℕ → Uuid)
      (principal : Principal) where
    processed-Uploaded :
        (d : DocumentRecord) (r : Result (DocumentRecord × ExtractionResult)) (w : World)
        → (ds : List DocumentRecord) → Saved d ds (r, w.session)
        → HasBinary content d.storage_key w.files
        → d.id ≡ document_id
        → d.case_id ≡ case_id
        → any (λ (x : DocumentRecord). x.id == d.id) ds ≡ true
        → Uploaded content document_id case_id (elim r [ ok a ↦ (ok a.0, w) | err e ↦ (err e, w) ])
    processed-Uploaded d (err e) w ds saved h same case_same there = tt
    processed-Uploaded d (ok (d', result)) w ds (k, same_id, same_case, rows) (key, path, a, b, c)
          same case_same there =
        (
          (key, path, k ∙ a, b, c),
          (
            same_id ∙ same,
            same_case ∙ case_same,
            rw rows (saved_in (λ x. x.id == d.id) d d' ds there),
          ),
        )

    process_stored-Uploaded :
        (temporary : Text) (d : DocumentRecord) (w : World)
        → HasBinary content d.storage_key w.files
        → IsAdded content temporary document_id case_id d w
        → Uploaded content document_id case_id
            (process_stored host settings now fresh principal d w)
    unfolding process_stored
    process_stored-Uploaded temporary d w h (same, case_same, there) =
        let processed =
          process_document (host.readers w.files) (storage_of w.files) settings now fresh
            (some principal.user.id) d w.session in
        processed-Uploaded d processed.0 (record w { session = processed.1 })
          w.session.working.documents
          (process_document-Saved (host.readers w.files) (storage_of w.files) settings now fresh
            (some principal.user.id) d w.session)
          h same case_same there

    stored-Uploaded :
        (temporary : Text) (r : Result DocumentRecord) (w : World)
        → StoredResult content temporary document_id case_id (r, w)
        → Uploaded content document_id case_id (elim r [
          | ok d ↦ process_stored host settings now fresh principal d w
          | err e ↦ (err e, w)
        ])
    stored-Uploaded temporary (err e) w h = tt
    stored-Uploaded temporary (ok d) w ((key, path, a, b, c, ne), added) =
        process_stored-Uploaded temporary d w (key, path, a, b, c) added

module _ (host : Host) (settings : Settings) (now : DateTime) (document_id : Uuid)
    (fresh : ℕ → Uuid) (temporary_path : Text) (case_id : Uuid) (file : UploadFile) where
  store_upload-Uploaded :
      (category : String) (principal : Principal) (x : Checked StagedUpload × Files) (w : World)
      (files : Files)
      → StageResult host.decoders host.sha256 settings.max_upload_bytes temporary_path file files x
      → Uploaded (upload_content file.chunks) document_id case_id (
          (store_upload host now document_id case_id file category principal x.0
              >>= process_stored host settings now fresh principal)
            (record w { files = x.1 }))
  unfolding store_upload finally_discard
  store_upload-Uploaded category principal (refused e, files') w files h = tt
  store_upload-Uploaded category principal (valid staged, files') w files
        (m, z, p, q, d, v, there) =
      let content = upload_content file.chunks in
      let w' = record w { files = files' } in
      let kept = store_staged host now document_id case_id file category principal staged w' in
      stored-Uploaded content document_id case_id host settings now fresh principal
        staged.temporary_path kept.0 (record kept.1 { files = discard staged kept.1.files })
        (discarded-StoredResult content staged.temporary_path document_id case_id kept.0 kept.1 (
          staged-StoredResult content staged.temporary_path document_id case_id host now file
            category principal staged w' refl there))

  receive_upload-Uploaded :
      (begun : Principal × String) (w : World)
      → Uploaded
          (upload_content file.chunks)
          document_id
          case_id
          (receive_upload host settings now document_id fresh temporary_path case_id file begun w)
  unfolding receive_upload
  receive_upload-Uploaded (principal, category) w =
      store_upload-Uploaded category principal
        (stage_upload host.decoders host.sha256 settings.max_upload_bytes temporary_path file
          w.files)
        w w.files
        (stage_upload-StageResult host.decoders host.sha256 settings.max_upload_bytes temporary_path
          file w.files)

  -- An upload that succeeds leaves the document, under the new identifier and in the case that was
  -- asked for, in the committed rows, with a key at whose path stands the content that was sent: all
  -- of its chunks, in order.
  pub upload_document-HasBinary :
      (category : String) (sender : Principal) (w w' : World) (d : DocumentRecord)
      → upload_document host settings now document_id fresh temporary_path case_id file category
          sender w
        ≡ (ok d, w')
      → HasBinary (upload_content file.chunks) d.storage_key w'.files
        × IsCommitted document_id case_id d w'.session
  unfolding upload_document
  upload_document-HasBinary category sender w w' d e =
      subst (Uploaded (upload_content file.chunks) document_id case_id) e (
        bind-Uploaded (upload_content file.chunks) document_id case_id
          (begin_upload host settings now document_id case_id file category sender)
          (receive_upload host settings now document_id fresh temporary_path case_id file) w
          receive_upload-Uploaded)
