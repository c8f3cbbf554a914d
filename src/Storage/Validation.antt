-- ===== src/Storage/Validation.antt =====
-- server/app/services/storage.py: what the name and the declared type of an upload must satisfy.
use Prim.Native.String.{◌++◌ as str_append}
use legal_bridge.Prelude.{
  ℕ, String, Bool, true, false, Option, none, some, List, [], ◌∷◌, ◌&&◌, ◌||◌, ◌==◌, not, any,
  length, ltb, codes, text_eq, lower, if◌then◌else◌,
}
use legal_bridge.Store.Schema.{Text}
use legal_bridge.Store.Session.{ApplicationError}
use legal_bridge.Extraction.Texts.{is_empty_text, split_on, strip}

-- The exception has the fields of an ApplicationError.
abbrev pub DocumentValidationError : Type 0
DocumentValidationError = ApplicationError

abbrev pub invalid : String → String → DocumentValidationError
invalid code message = record { status_code = 400; code = code; message = message }

-- Each extension with its content type.
abbrev pub allowed_content_types : List (String × String)
allowed_content_types =
    (".pdf", "application/pdf")
    ∷ (".docx", "application/vnd.openxmlformats-officedocument.wordprocessingml.document")
    ∷ (".txt", "text/plain")
    ∷ []

abbrev pub entry_of : Text → List (String × String) → Option (String × String)
entry_of extension [] = none
entry_of extension ((e, t) ∷ types) =
    if text_eq extension (codes e) then some (e, t) else entry_of extension types

-- `Path(name).suffix` of a name without slashes; the flag says that a character stands before.
unfoldable pub name_suffix : Bool → Text → Text
name_suffix seen [] = []
name_suffix seen (c ∷ cs) =
    let later = name_suffix true cs in
    if any (λ d. d == 46) cs
    then later
    else if (c == 46) && seen && not (is_empty_text cs)
    then c ∷ cs
    else []

abbrev pub is_control : ℕ → Bool
is_control c = ltb c 32 || (c == 127)

abbrev pub is_unsafe_name : Text → Bool
is_unsafe_name filename =
    not (text_eq filename (strip filename))
    || text_eq filename (codes ".")
    || text_eq filename (codes "..")
    || any (λ c. (c == 47) || (c == 92) || is_control c) filename

-- What stands before the first semicolon.
abbrev pub declared_type : Text → Text
declared_type content_type = elim (split_on 59 content_type) [ [] ↦ [] | t ∷ _ ↦ lower (strip t) ]

pub data Checked (A : Type 0) : Type 0 where
  valid : A → Checked A
  refused : DocumentValidationError → Checked A

abbrev pub or_empty : Option String → Text
or_empty none = []
or_empty (some t) = codes t

abbrev pub unsafe_path : DocumentValidationError
unsafe_path =
    invalid "unsafe_filename"
      "Filename must not contain a path, surrounding whitespace, or control characters."

abbrev pub mismatch : String × String → DocumentValidationError
mismatch (extension, expected) = invalid "content_type_mismatch" (
    str_append "The declared MIME type must be "
      (str_append expected (str_append " for " (str_append extension " files."))))

-- `expected_content_type`, and the comparison with the declared type.
abbrev pub check_type : Option (String × String) → Option String → Checked (String × String)
check_type none content_type =
    refused (invalid "unsupported_extension" "Only PDF, DOCX, and TXT files are accepted.")
check_type (some (extension, expected)) content_type =
    if text_eq (declared_type (or_empty content_type)) (codes expected)
    then valid (extension, expected)
    else refused (mismatch (extension, expected))

-- The extension with its content type.
unfoldable pub validate_upload_metadata : Option String → Option String → Checked (String × String)
unfolding name_suffix split_on strip lower
validate_upload_metadata filename content_type =
    let name = or_empty filename in
    if is_empty_text name
    then refused (invalid "missing_filename" "A filename is required.")
    else if is_unsafe_name name
    then refused unsafe_path
    else if ltb 255 (length name)
    then refused (invalid "unsafe_filename" "Filename must be 255 characters or fewer.")
    else check_type (entry_of (lower (name_suffix false name)) allowed_content_types) content_type
