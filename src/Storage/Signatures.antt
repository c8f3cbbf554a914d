-- ===== src/Storage/Signatures.antt =====
-- server/app/services/storage.py: what the content of an upload must satisfy. The reader of zip
-- archives and the UTF-16 codec are parameters.
use legal_bridge.Prelude.{
  ℕ, ◌+◌, ◌*◌, max, String, Bool, Option, none, some, List, [], ◌∷◌, ◌&&◌, ◌||◌, ◌==◌, not, any,
  length, take, ltb, codes, text_eq, is_prefix, if◌then◌else◌,
}
use legal_bridge.Store.Schema.{Text}
use legal_bridge.Extraction.Texts.{split_on}
use legal_bridge.Storage.{Bytes, is_absolute}
use legal_bridge.Storage.Validation.{DocumentValidationError, invalid}

pub record ArchiveEntry : Type 0 where
  pub filename : Text
  pub file_size : ℕ
  pub compress_size : ℕ

pub record Decoders : Type 0 where
  -- `ZipFile(path).infolist()`; none for OSError, BadZipFile and RuntimeError.
  pub infolist : Bytes → Option (List ArchiveEntry)
  -- Whether `testzip` raises one of these.
  pub testzip_raises : Bytes → Bool
  -- Whether the bytes decode as UTF-16.
  pub is_utf16 : Bytes → Bool

abbrev pub unsafe_container : String → Option DocumentValidationError
unsafe_container message = some (invalid "unsafe_docx_container" message)

abbrev pub is_unsafe_entry : ArchiveEntry → Bool
is_unsafe_entry entry =
    is_absolute entry.filename
    || any (λ part. text_eq part (codes "..")) (split_on 47 entry.filename)

abbrev pub has_unsafe_ratio : ArchiveEntry → Bool
has_unsafe_ratio entry =
    ltb 0 entry.compress_size
    && ltb 10485760 entry.file_size
    && ltb (200 * entry.compress_size) entry.file_size

-- The loop over the entries, behind those that expand to `total` bytes.
unfoldable pub check_entries : ℕ → ℕ → List ArchiveEntry → Option DocumentValidationError
unfolding split_on
check_entries uncompressed_limit total [] = none
check_entries uncompressed_limit total (entry ∷ entries) =
    let rest = check_entries uncompressed_limit (total + entry.file_size) entries in
    if is_unsafe_entry entry
    then unsafe_container "The DOCX container contains an unsafe entry path."
    else if ltb uncompressed_limit (total + entry.file_size)
    then unsafe_container "The DOCX container expands beyond the safe processing limit."
    else if has_unsafe_ratio entry
    then unsafe_container "The DOCX container has an unsafe compression ratio."
    else rest

abbrev pub has_entry : String → List ArchiveEntry → Bool
has_entry name = any (λ entry. text_eq entry.filename (codes name))

abbrev pub no_container : Option DocumentValidationError
no_container = some (invalid "invalid_docx_container" "The file is not a valid DOCX container.")

abbrev pub uncompressed_limit_of : ℕ → ℕ
uncompressed_limit_of max_upload_bytes = max (max_upload_bytes * 4) 104857600

unfoldable pub check_container : ℕ → List ArchiveEntry → Option DocumentValidationError
unfolding check_entries
check_container max_upload_bytes entries =
    if not (has_entry "[Content_Types].xml" entries && has_entry "word/document.xml" entries)
    then some (
        invalid "invalid_docx_container"
          "The DOCX container is missing required Office document entries.")
    else if ltb 5000 (length entries)
    then unsafe_container "The DOCX container contains too many entries."
    else check_entries (uncompressed_limit_of max_upload_bytes) 0 entries

-- An error, if there is one.
unfoldable pub validate_docx_container : Decoders → ℕ → Bytes → Option DocumentValidationError
unfolding check_container
validate_docx_container decoders max_upload_bytes content = elim (decoders.infolist content) [
  | none ↦ no_container
  | some entries ↦ elim (check_container max_upload_bytes entries) [
    | some error ↦ some error
    | none ↦ if decoders.testzip_raises content then no_container else none
  ]
]

abbrev pub count_nuls : Bytes → ℕ
count_nuls [] = 0
count_nuls (b ∷ bs) = (if b == 0 then 1 else 0) + count_nuls bs

-- `sample[0::2]`
abbrev pub evens : Bytes → Bytes
evens [] = []
evens (b ∷ []) = b ∷ []
evens (b ∷ c ∷ bs) = b ∷ evens bs

abbrev pub odds : Bytes → Bytes
odds [] = []
odds (b ∷ bs) = evens bs

abbrev pub is_disallowed : ℕ → Bool
is_disallowed b = not (b == 0) && (ltb b 9 || (ltb 13 b && ltb b 32))

abbrev pub count_disallowed : Bytes → ℕ
count_disallowed [] = 0
count_disallowed (b ∷ bs) = (if is_disallowed b then 1 else 0) + count_disallowed bs

-- `count_nuls(a) / len(a) > 0.6`, and `< 0.1`.
abbrev pub mostly_nul : Bytes → Bool
mostly_nul bytes = ltb (6 * max (length bytes) 1) (10 * count_nuls bytes)

abbrev pub hardly_nul : Bytes → Bool
hardly_nul bytes = ltb (10 * count_nuls bytes) (max (length bytes) 1)

abbrev pub looks_utf16 : Bytes → Bool
looks_utf16 sample =
    (mostly_nul (evens sample) || mostly_nul (odds sample))
    && (hardly_nul (evens sample) || hardly_nul (odds sample))

abbrev pub has_mark : Bytes → Bool
has_mark sample = is_prefix (255 ∷ 254 ∷ []) sample || is_prefix (254 ∷ 255 ∷ []) sample

unfoldable pub validate_text_signature : Decoders → Bytes → Option DocumentValidationError
validate_text_signature decoders content =
    let sample = take 262144 content in
    if has_mark sample
    then if decoders.is_utf16 sample
      then none
      else some (invalid "invalid_text_encoding" "The TXT file has an invalid UTF-16 encoding.")
    else if ltb (max (length sample) 1) (100 * count_nuls sample) && not (looks_utf16 sample)
    then some (invalid "binary_text_file" "The TXT selection appears to contain binary content.")
    else if ltb (2 * max (length sample) 1) (100 * count_disallowed sample)
    then some
        (invalid "binary_text_file" "The TXT selection contains too many binary control bytes.")
    else none

unfoldable pub validate_signature : Decoders → ℕ → Bytes → String → Option DocumentValidationError
unfolding validate_docx_container validate_text_signature
validate_signature decoders max_upload_bytes content extension =
    if text_eq (codes extension) (codes ".pdf")
    then if is_prefix (codes "%PDF-") content
      then none
      else some (invalid "invalid_pdf_signature" "The file does not contain a valid PDF signature.")
    else if text_eq (codes extension) (codes ".docx")
    then validate_docx_container decoders max_upload_bytes content
    else validate_text_signature decoders content
