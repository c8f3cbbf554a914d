-- ===== src/Storage/Staging.antt =====
-- server/app/services/storage.py: `stage_upload`. The temporary file is written chunk by chunk and
-- removed on an error. The digest is a parameter.
pub mod Accepted
use Prim.Native.String.{◌++◌ as str_append}
use legal_bridge.Prelude.{
  ℕ, zero, suc, ◌+◌, String, Bool, true, false, Option, none, some, List, [], ◌∷◌, ◌++◌, ◌==◌,
  length, ltb, decimal, if◌then◌else◌,
}
use legal_bridge.Store.Schema.{Text}
use legal_bridge.Storage.{Bytes, Files, write_file, remove_file, StagedUpload}
use legal_bridge.Storage.Validation.{
  DocumentValidationError, invalid, Checked, valid, refused, validate_upload_metadata,
}
use legal_bridge.Storage.Signatures.{Decoders, validate_signature}

-- A file that is uploaded, as the chunks that are read; an empty chunk is the end.
pub record UploadFile : Type 0 where
  pub filename : Option String
  pub content_type : Option String
  pub chunks : List Bytes

abbrev pub digit_string : ℕ → String
digit_string c =
    if c == 48
    then "0"
    else if c == 49
    then "1"
    else if c == 50
    then "2"
    else if c == 51
    then "3"
    else if c == 52
    then "4"
    else if c == 53
    then "5"
    else if c == 54
    then "6"
    else if c == 55
    then "7"
    else if c == 56
    then "8"
    else "9"

abbrev pub digits : Text → String
digits [] = ""
digits (c ∷ cs) = str_append (digit_string c) (digits cs)

abbrev pub upload_too_large : ℕ → DocumentValidationError
upload_too_large max_upload_bytes = record {
  status_code = 413;
  code = "upload_too_large";
  message =
      str_append "Files must not exceed "
        (str_append (digits (decimal max_upload_bytes)) " bytes.");
}

-- The loop over the chunks, behind what has been written.
unfoldable pub read_chunks : ℕ → Bytes → List Bytes → Checked Bytes
read_chunks max_upload_bytes written [] = valid written
read_chunks max_upload_bytes written ([] ∷ chunks) = valid written
read_chunks max_upload_bytes written ((b ∷ bs) ∷ chunks) =
    let rest = read_chunks max_upload_bytes (written ++ b ∷ bs) chunks in
    if ltb max_upload_bytes (length written + length (b ∷ bs))
    then refused (upload_too_large max_upload_bytes)
    else rest

abbrev pub empty_file : DocumentValidationError
empty_file = invalid "empty_file" "Empty files are not accepted."

abbrev pub staged_as : (Bytes → String) → Text → String × String → Bytes → StagedUpload
staged_as sha256 temporary_path (extension, content_type) content = record {
  temporary_path = temporary_path;
  extension = extension;
  content_type = content_type;
  size_bytes = length content;
  sha256 = sha256 content;
}

abbrev pub accept_content :
    (Bytes → String)
    → Text
    → String × String
    → Bytes
    → Option DocumentValidationError
    → Checked (StagedUpload × Bytes)
accept_content sha256 temporary_path type content none =
    valid (staged_as sha256 temporary_path type content, content)
accept_content sha256 temporary_path type content (some error) = refused error

-- What was read, against its size and its signature.
abbrev pub check_content :
    Decoders
    → (Bytes → String)
    → ℕ
    → Text
    → String × String
    → Checked Bytes
    → Checked (StagedUpload × Bytes)
check_content decoders sha256 max_upload_bytes temporary_path type (refused error) = refused error
check_content decoders sha256 max_upload_bytes temporary_path type (valid []) = refused empty_file
check_content decoders sha256 max_upload_bytes temporary_path type (valid (b ∷ bs)) =
    accept_content sha256 temporary_path type (b ∷ bs)
      (validate_signature decoders max_upload_bytes (b ∷ bs) type.0)

abbrev pub check_upload :
    Decoders
    → (Bytes → String)
    → ℕ
    → Text
    → UploadFile
    → Checked (String × String)
    → Checked (StagedUpload × Bytes)
check_upload decoders sha256 max_upload_bytes temporary_path upload (refused error) = refused error
check_upload decoders sha256 max_upload_bytes temporary_path upload (valid type) =
    check_content decoders sha256 max_upload_bytes temporary_path type
      (read_chunks max_upload_bytes [] upload.chunks)

-- The result, and the files behind it: an accepted upload stands in its temporary file.
abbrev pub settle : Text → Checked (StagedUpload × Bytes) → Files → Checked StagedUpload × Files
settle temporary_path (refused error) files = (refused error, remove_file temporary_path files)
settle temporary_path (valid (staged, content)) files =
    (valid staged, write_file temporary_path content files)

-- `temporary_path` is fresh.
unfoldable pub stage_upload :
    Decoders → (Bytes → String) → ℕ → Text → UploadFile → Files → Checked StagedUpload × Files
unfolding validate_upload_metadata read_chunks validate_signature
stage_upload decoders sha256 max_upload_bytes temporary_path upload = settle temporary_path (
    check_upload decoders sha256 max_upload_bytes temporary_path upload
      (validate_upload_metadata upload.filename upload.content_type))
