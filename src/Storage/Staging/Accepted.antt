-- ===== src/Storage/Staging/Accepted.antt =====
-- What is known of an upload that was staged, and of one that was not.
use legal_bridge.Prelude.{
  ℕ, ◌+◌, ◌≤◌, ◌<◌, String, Option, none, some, List, [], ◌∷◌, ◌++◌, ◌≡◌, refl, sym, subst, ◌∙◌,
  arith, length, length-append, append-nil, append_assoc, ltb, text_eq_self, Bool-cases, inl, inr,
}
use legal_bridge.Store.Schema.{Text}
use legal_bridge.Storage.{Bytes, Files, read_file, write_file, remove_file, StagedUpload}
use legal_bridge.Storage.Validation.{
  DocumentValidationError, Checked, valid, refused, validate_upload_metadata,
}
use legal_bridge.Storage.Signatures.{Decoders, validate_signature}
use legal_bridge.Storage.Staging.{
  UploadFile, read_chunks, accept_content, check_content, check_upload, settle, stage_upload,
}

-- The chunks up to the first empty one.
abbrev pub upload_content : List Bytes → Bytes
upload_content [] = []
upload_content ([] ∷ chunks) = []
upload_content ((b ∷ bs) ∷ chunks) = (b ∷ bs) ++ upload_content chunks

read_chunks-valid :
    (limit : ℕ) (written : Bytes) (chunks : List Bytes) (content : Bytes)
    → length written ≤ limit
    → read_chunks limit written chunks ≡ valid content
    → (content ≡ written ++ upload_content chunks) × (length content ≤ limit)
unfolding read_chunks
read_chunks-valid limit written [] content h e =
    let same : written ≡ content = cc in
    (sym same ∙ sym (append-nil written), subst (λ c. length c ≤ limit) same h)
read_chunks-valid limit written ([] ∷ chunks) content h e =
    let same : written ≡ content = cc in
    (sym same ∙ sym (append-nil written), subst (λ c. length c ≤ limit) same h)
read_chunks-valid limit written ((b ∷ bs) ∷ chunks) content h e =
    elim (Bool-cases (ltb limit (length written + length (b ∷ bs)))) [
      | inl large ↦ absurd (ground (arith, e, large))
      | inr fits ↦
          let later : read_chunks limit (written ++ b ∷ bs) chunks ≡ valid content =
            ground (arith, e, fits) in
          let (same, bound) =
            read_chunks-valid limit (written ++ b ∷ bs) chunks content
              (ground (arith, fits, length-append written (b ∷ bs))) later in
          (same ∙ append_assoc written (b ∷ bs) (upload_content chunks), bound)
    ]

-- What an accepted upload has.
abbrev pub Accepted : Decoders → (Bytes → String) → ℕ → UploadFile → StagedUpload → Files → Type 0
Accepted decoders sha256 limit upload staged files =
    let content = upload_content upload.chunks in
    (validate_upload_metadata upload.filename upload.content_type
      ≡ valid (staged.extension, staged.content_type))
    × (staged.size_bytes ≡ length content)
    × (0 < length content)
    × (length content ≤ limit)
    × (staged.sha256 ≡ sha256 content)
    × (validate_signature decoders limit content staged.extension ≡ none)
    × (read_file staged.temporary_path files ≡ some content)

-- What is read from the file that was written last.
read_file-write_file :
    (path : Text) (content : Bytes) (files : Files)
    → read_file path (write_file path content files) ≡ some content
read_file-write_file path content files = rw (text_eq_self path) refl

module _ (decoders : Decoders) (sha256 : Bytes → String) (limit : ℕ) (temporary_path : Text)
    (upload : UploadFile) (files : Files) where
  -- An upload is accepted with all that is asked of it, or it is refused and its file is gone.
  abbrev pub StageResult : Checked StagedUpload × Files → Type 0
  StageResult (valid staged, files') = Accepted decoders sha256 limit upload staged files'
  StageResult (refused error, files') = files' ≡ remove_file temporary_path files

  signed-StageResult :
      (type : String × String) (content : Bytes) (o : Option DocumentValidationError)
      → validate_upload_metadata upload.filename upload.content_type ≡ valid type
      → content ≡ upload_content upload.chunks
      → 0 < length content
      → length content ≤ limit
      → validate_signature decoders limit content type.0 ≡ o
      → StageResult
          (settle temporary_path (accept_content sha256 temporary_path type content o) files)
  signed-StageResult type content (some error) m c p q v = refl
  signed-StageResult type content none m c p q v =
      let stored : read_file temporary_path (write_file temporary_path content files)
          ≡ some content =
        read_file-write_file temporary_path content files in
      subst
        (λ t.
          (validate_upload_metadata upload.filename upload.content_type ≡ valid type)
          × (length content ≡ length t)
          × (0 < length t)
          × (length t ≤ limit)
          × (sha256 content ≡ sha256 t)
          × (validate_signature decoders limit t type.0 ≡ none)
          × (read_file temporary_path (write_file temporary_path content files) ≡ some t))
        c (m, refl, p, q, refl, v, stored)

  read-StageResult :
      (type : String × String) (read : Checked Bytes)
      → validate_upload_metadata upload.filename upload.content_type ≡ valid type
      → read_chunks limit [] upload.chunks ≡ read
      → StageResult (
          settle temporary_path
            (check_content decoders sha256 limit temporary_path type read)
            files)
  read-StageResult type (refused error) m r = refl
  read-StageResult type (valid []) m r = refl
  read-StageResult type (valid (b ∷ bs)) m r =
      let (c, q) = read_chunks-valid limit [] upload.chunks (b ∷ bs) (omega arith) r in
      signed-StageResult type (b ∷ bs) (validate_signature decoders limit (b ∷ bs) type.0) m c
        (omega arith) q refl

  named-StageResult :
      (checked : Checked (String × String))
      → validate_upload_metadata upload.filename upload.content_type ≡ checked
      → StageResult (
          settle temporary_path
            (check_upload decoders sha256 limit temporary_path upload checked)
            files)
  named-StageResult (refused error) m = refl
  named-StageResult (valid type) m =
      read-StageResult type (read_chunks limit [] upload.chunks) m refl

  -- An upload is accepted only with a name and a declared type that fit, a content of at least one
  -- byte and at most the limit, which is all of its chunks and has a valid signature, and then this
  -- content stands in its temporary file; one that is refused leaves no temporary file.
  pub stage_upload-StageResult :
      StageResult (stage_upload decoders sha256 limit temporary_path upload files)
  unfolding stage_upload
  stage_upload-StageResult =
      named-StageResult (validate_upload_metadata upload.filename upload.content_type) refl
