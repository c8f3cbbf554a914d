-- ===== src/Storage.antt =====
-- server/app/services/storage.py: the files below the storage root and the operations of the local
-- `StorageService` on them. A path is the text behind the root, without empty and `.` parts. There
-- are no symbolic links below the root; directories, which are made and removed as the files
-- need them, are left out. Supabase, an HTTP service, is not modelled.
pub mod Validation
pub mod Signatures
pub mod Staging
pub mod Quarantine
pub mod Tests
use Prim.Native.String.{◌++◌ as str_append}
use legal_bridge.Prelude.{
  ℕ, String, Bool, true, false, Option, none, some, List, [], ◌∷◌, ◌++◌, ◌&&◌, ◌||◌, ◌==◌, not, all,
  any, filter, find, length, leb, ltb, codes, text_eq, str_eq, join, is_some, if◌then◌else◌,
}
use legal_bridge.Store.Schema.{Uuid, Text}
use legal_bridge.Extraction.Texts.{is_empty_text, split_on}

abbrev pub Bytes : Type 0
Bytes = List ℕ

abbrev pub Files : Type 0
Files = List (record { path : Text; content : Bytes })

abbrev pub read_file : Text → Files → Option Bytes
read_file path [] = none
read_file path (file ∷ files) =
    if text_eq path file.path then some file.content else read_file path files

abbrev pub remove_file : Text → Files → Files
remove_file path [] = []
remove_file path (file ∷ files) =
    let rest = remove_file path files in if text_eq path file.path then rest else file ∷ rest

abbrev pub write_file : Text → Bytes → Files → Files
write_file path content files = record { path = path; content = content } ∷ remove_file path files

abbrev pub is_file : Text → Files → Bool
is_file path files = is_some (read_file path files)

abbrev pub put_moved : Text → Text → Option Bytes → Files → Files
put_moved source target none files = files
put_moved source target (some content) files = write_file target content (remove_file source files)

-- `os.replace`, where the source may be missing.
abbrev pub move_file : Text → Text → Files → Files
move_file source target files = put_moved source target (read_file source files) files

abbrev pub is_part : Text → Bool
is_part part = not (is_empty_text part || text_eq part (codes "."))

abbrev pub is_absolute : Text → Bool
is_absolute [] = false
is_absolute (c ∷ _) = c == 47

-- `_resolve_key`: none where it raises ValueError.
unfoldable pub resolve_key : String → Option Text
unfolding split_on join
resolve_key storage_key =
    let parts = filter is_part (split_on 47 (codes storage_key)) in
    if is_absolute (codes storage_key) || any (λ part. text_eq part (codes "..")) parts
    then none
    else some (join (codes "/") parts)

-- `path_for_key`: none where it raises FileNotFoundError, or ValueError for a key that
-- `_resolve_key` refuses, which `finalize` does not make.
unfoldable pub path_for_key : Files → String → Option Text
unfolding resolve_key
path_for_key files storage_key = elim (resolve_key storage_key) [
  | none ↦ none
  | some path ↦ if is_file path files then some path else none
]

-- A name without a value, and the empty name, which Python takes for false.
abbrev pub given_key : Option String → Option String
given_key none = none
given_key (some key) = if str_eq key "" then none else some key

-- None where `_resolve_key` raises ValueError.
unfoldable pub binary_exists : Option String → Files → Option Bool
unfolding resolve_key
binary_exists storage_key files = elim (given_key storage_key) [
  | none ↦ some false
  | some key ↦ elim (resolve_key key) [ none ↦ none | some path ↦ some (is_file path files) ]
]

abbrev pub is_safe_char : ℕ → Bool
is_safe_char c =
    (leb 65 c && leb c 90) || (leb 97 c && leb c 122) || (leb 48 c && leb c 57) || (c == 45)

-- SAFE_COMPONENT
abbrev pub is_safe_component : String → Bool
is_safe_component component =
    leb 1 (length (codes component))
    && leb (length (codes component)) 100
    && all is_safe_char (codes component)

-- What `stage_upload` returns.
pub record StagedUpload : Type 0 where
  pub temporary_path : Text
  pub extension : String
  pub content_type : String
  pub size_bytes : ℕ
  pub sha256 : String

-- The key of a document's file.
abbrev pub document_key : String → String → String → String → String
document_key organization_id case_id document_id extension = str_append organization_id (
    str_append "/" (
      str_append case_id
        (str_append "/" (str_append document_id (str_append "/original" extension)))))

pub data Finalized : Type 0 where
  stored : String → Files → Finalized
  -- ValueError or FileExistsError.
  raised : Finalized

-- The identifiers are given as the texts that they are in the code.
unfoldable pub finalize : StagedUpload → String → String → String → Files → Finalized
unfolding resolve_key
finalize staged organization_id case_id document_id files =
    let key = document_key organization_id case_id document_id staged.extension in
    if not (
      is_safe_component organization_id
      && is_safe_component case_id
      && is_safe_component document_id)
    then raised
    else elim (resolve_key key) [
      | none ↦ raised
      | some path ↦
          if is_file path files
          then raised
          else stored key (move_file staged.temporary_path path files)
    ]

abbrev pub discard : StagedUpload → Files → Files
discard staged = remove_file staged.temporary_path

-- None where `_resolve_key` raises ValueError.
unfoldable pub delete_key : Option String → Files → Option Files
unfolding resolve_key
delete_key storage_key files = elim (given_key storage_key) [
  | none ↦ some files
  | some key ↦ elim (resolve_key key) [ none ↦ none | some path ↦ some (remove_file path files) ]
]

-- The original path and that in the quarantine.
abbrev pub Quarantined : Type 0
Quarantined = Option (Text × Text)

-- The last two parts of a path: its directory's name and its own; `before` is the name of the
-- directory that a path of one part stands in.
abbrev pub last_two : Text → List Text → Text × Text
last_two before [] = (before, [])
last_two before (a ∷ []) = (before, a)
last_two before (a ∷ b ∷ rest) = last_two a (b ∷ rest)

-- `root` is the name of the storage's root directory.
unfoldable pub quarantine_path : Text → Text → Text
unfolding split_on
quarantine_path root path =
    let (parent, name) = last_two root (split_on 47 path) in
    codes ".quarantine/" ++ (parent ++ (codes "-" ++ (name ++ codes ".deleted")))

-- `other` is the path of the fresh name that is taken where the first is in use.
abbrev pub free_path : Text → Text → Option Bytes → Text
free_path other path none = path
free_path other path (some _) = other

abbrev pub quarantine_file : Text → Text → Option Bytes → Files → Quarantined × Files
quarantine_file original target none files = (none, files)
quarantine_file original target (some content) files =
    (some (original, target), move_file original target files)

-- None where `_resolve_key` raises ValueError.
abbrev pub quarantine_resolved : Text → Text → Option Text → Files → Option (Quarantined × Files)
quarantine_resolved root other none files = none
quarantine_resolved root other (some original) files =
    let named = quarantine_path root original in
    some (
      quarantine_file original (free_path other named (read_file named files))
        (read_file original files) files)

abbrev pub quarantine_key : Text → Text → Option String → Files → Option (Quarantined × Files)
quarantine_key root other none files = some (none, files)
quarantine_key root other (some key) files = quarantine_resolved root other (resolve_key key) files

unfoldable pub quarantine : Text → Text → Option String → Files → Option (Quarantined × Files)
unfolding quarantine_path resolve_key
quarantine root other storage_key = quarantine_key root other (given_key storage_key)

unfoldable pub restore_quarantined : Quarantined → Files → Files
restore_quarantined none files = files
restore_quarantined (some (original, target)) files =
    if is_file target files then move_file target original files else files

unfoldable pub purge_quarantined : Quarantined → Files → Files
purge_quarantined none files = files
purge_quarantined (some (original, target)) files = remove_file target files
