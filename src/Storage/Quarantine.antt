-- ===== src/Storage/Quarantine.antt =====
-- A file in the quarantine: what restoring it gives back, and what purging it takes away.
use legal_bridge.Prelude.{
  String, true, false, Option, none, some, [], ◌∷◌, ◌≡◌, refl, ap, subst, ◌∙◌, arith, text_eq,
  text_eq_self, text_eq→≡, if◌then◌else◌, if-both, Bool-cases, inl, inr,
}
use legal_bridge.Store.Schema.{Text}
use legal_bridge.Storage.{
  Bytes, Files, read_file, remove_file, write_file, move_file, resolve_key, given_key, Quarantined,
  quarantine_path, free_path, quarantine_file, quarantine_resolved, quarantine_key, quarantine,
  restore_quarantined, purge_quarantined,
}

pub same_path : (a b c : Text) → text_eq a b ≡ true → text_eq a c ≡ true → text_eq b c ≡ true
same_path a b c h k = subst (λ t. text_eq t c ≡ true) (text_eq→≡ a b h) k

pub read_file-remove_file :
    (path gone : Text) (files : Files)
    → read_file path (remove_file gone files)
      ≡ (if text_eq path gone then none else read_file path files)
read_file-remove_file path gone [] = if-both (λ r. none ≡ r) (text_eq path gone) refl refl
read_file-remove_file path gone (file ∷ files) = elim (Bool-cases (text_eq gone file.path)) [
  | inl e ↦
      let moved : text_eq path gone ≡ text_eq path file.path =
        ap (text_eq path) (text_eq→≡ gone file.path e) in
      ground (arith, e, moved, read_file-remove_file path gone files)
  | inr e ↦ ground (arith, e, same_path path gone file.path, read_file-remove_file path gone files)
]

read_other :
    (path target : Text) (content : Bytes) (files : Files)
    → text_eq path target ≡ false
    → read_file path (write_file target content files) ≡ read_file path files
read_other path target content files h = rw h (read_file-remove_file path target files ∙ rw h refl)

-- What is read behind a move of a file that is there.
pub read_moved :
    (path source target : Text) (content : Bytes) (files : Files)
    → read_file source files ≡ some content
    → read_file path (move_file source target files) ≡ (
        if text_eq path target
        then some content
        else if text_eq path source
        then none
        else read_file path files)
read_moved path source target content files h = elim (Bool-cases (text_eq path target)) [
  | inl e ↦ rw (h, e) refl
  | inr e ↦
      rw (h, e)
        (read_file-remove_file path target (remove_file source files)
          ∙ rw e (read_file-remove_file path source files))
]

-- What is left at a path when the quarantined file is gone.
abbrev pub without_quarantined : Quarantined → Text → Files → Option Bytes
without_quarantined none path files = read_file path files
without_quarantined (some (original, target)) path files =
    if text_eq path original then none else read_file path files

-- Restoring gives every file back, and purging takes the quarantined one and no other.
abbrev pub Reversible : Files → Option (Quarantined × Files) → Type 0
Reversible files none = Unit
Reversible files (some (q, files')) =
    (path : Text)
    → (read_file path (restore_quarantined q files') ≡ read_file path files)
      × (read_file path (purge_quarantined q files') ≡ without_quarantined q path files)

module _ (original target : Text) (content : Bytes) (files : Files) where
  read_at :
      (path spot : Text) (o : Option Bytes)
      → read_file spot files ≡ o
      → text_eq path spot ≡ true
      → read_file path files ≡ o
  read_at path spot o h e = ap (λ t. read_file t files) (text_eq→≡ path spot e) ∙ h

  moved-Reversible :
      read_file original files ≡ some content
      → read_file target files ≡ none
      → Reversible files (some (some (original, target), move_file original target files))
  unfolding restore_quarantined purge_quarantined
  moved-Reversible h k path =
      let away = move_file original target files in
      let there : read_file target away ≡ some content =
        read_moved target original target content files h ∙ rw (text_eq_self target) refl in
      let here = read_moved path original target content files h in
      let at_original = read_at path original (some content) h in
      let at_target = read_at path target none k in
      let back : restore_quarantined (some (original, target)) away
          ≡ move_file target original away =
        rw there refl in
      (
        ap (read_file path) back
            ∙ read_moved path target original content away there
            ∙ ground (arith, here, at_original, at_target),
        read_file-remove_file path target away ∙ ground (arith, here, at_original, at_target),
      )

nothing-Reversible : (files : Files) → Reversible files (some (none, files))
unfolding restore_quarantined purge_quarantined
nothing-Reversible files path = (refl, refl)

read_file-free_path :
    (other named : Text) (files : Files) (o : Option Bytes)
    → read_file other files ≡ none
    → read_file named files ≡ o
    → read_file (free_path other named o) files ≡ none
read_file-free_path other named files none h k = k
read_file-free_path other named files (some content) h k = h

file-Reversible :
    (original target : Text) (files : Files) (o : Option Bytes)
    → read_file original files ≡ o
    → read_file target files ≡ none
    → Reversible files (some (quarantine_file original target o files))
file-Reversible original target files none h k = nothing-Reversible files
file-Reversible original target files (some content) h k =
    moved-Reversible original target content files h k

resolved-Reversible :
    (root other : Text) (files : Files) (o : Option Text)
    → read_file other files ≡ none
    → Reversible files (quarantine_resolved root other o files)
resolved-Reversible root other files none h = tt
resolved-Reversible root other files (some original) h =
    let named = quarantine_path root original in
    file-Reversible original (free_path other named (read_file named files)) files
      (read_file original files) refl
      (read_file-free_path other named files (read_file named files) h refl)

key-Reversible :
    (root other : Text) (key : Option String) (files : Files)
    → read_file other files ≡ none
    → Reversible files (quarantine_key root other key files)
key-Reversible root other none files h = nothing-Reversible files
key-Reversible root other (some key) files h =
    resolved-Reversible root other files (resolve_key key) h

-- A quarantine that succeeds is reversible until it is purged, whatever the key names: where the
-- path of the fresh name is free, restoring gives every file back, and purging takes the file that
-- was quarantined, if there was one, and no other.
pub quarantine-Reversible :
    (root other : Text) (storage_key : Option String) (files : Files)
    → read_file other files ≡ none
    → Reversible files (quarantine root other storage_key files)
unfolding quarantine
quarantine-Reversible root other storage_key files =
    key-Reversible root other (given_key storage_key) files

-- The path of the file that a document's storage key names.
abbrev pub stored_at : Option String → Option Text
stored_at storage_key = elim (given_key storage_key) [ none ↦ none | some key ↦ resolve_key key ]

-- What is left at a path when the file of a document is gone.
abbrev pub without_stored : Option Text → Text → Files → Option Bytes
without_stored none path files = read_file path files
without_stored (some original) path files =
    if text_eq path original then none else read_file path files

-- What a quarantine takes is the file at this path.
abbrev Takes : Option Text → Files → Option (Quarantined × Files) → Type 0
Takes spot files none = Unit
Takes spot files (some (q, files')) =
    (path : Text) → without_quarantined q path files ≡ without_stored spot path files

file-Takes :
    (original target : Text) (files : Files) (o : Option Bytes)
    → read_file original files ≡ o
    → Takes (some original) files (some (quarantine_file original target o files))
file-Takes original target files none h path = elim (Bool-cases (text_eq path original)) [
  | inl e ↦ rw e (ap (λ t. read_file t files) (text_eq→≡ path original e) ∙ h)
  | inr e ↦ rw e refl
]
file-Takes original target files (some content) h path = refl

key-Takes :
    (root other : Text) (key : Option String) (spot : Option Text) (files : Files)
    → elim key [ none ↦ none | some k ↦ resolve_key k ] ≡ spot
    → Takes spot files (quarantine_key root other key files)
key-Takes root other none spot files h = λ path. rw (← h) refl
key-Takes root other (some key) none files h = rw h tt
key-Takes root other (some key) (some original) files h =
    let named = quarantine_path root original in
    rw h (
      file-Takes original (free_path other named (read_file named files)) files
        (read_file original files) refl)

-- Behind a purge of what was quarantined the document's file is gone and every other is as it was.
pub purged :
    (root other : Text) (storage_key : Option String) (files files' : Files) (q : Quarantined)
    (path : Text)
    → read_file other files ≡ none
    → quarantine root other storage_key files ≡ some (q, files')
    → read_file path (purge_quarantined q files')
      ≡ without_stored (stored_at storage_key) path files
unfolding quarantine
purged root other storage_key files files' q path free h =
    let reversible =
      subst (Reversible files) h (quarantine-Reversible root other storage_key files free) in
    let takes =
      subst (Takes (stored_at storage_key) files) h
        (key-Takes root other (given_key storage_key) (stored_at storage_key) files refl) in
    (reversible path).1 ∙ takes path
