-- ===== src/Analysis/Patterns/RoundTrip.antt =====
-- What is written as records is read back.
use legal_bridge.Prelude.{
  ℕ, ◌-◌, Bool, true, false, Option, none, some, List, [], ◌∷◌, ◌++◌, ◌≡◌, refl, sym, ap, ◌∙◌,
  subst, arith, length, length-append, All, map, flatten, codes, append_assoc, append-nil, ◌==◌,
}
use legal_bridge.Store.Schema.{Text}
use legal_bridge.Extraction.Texts.{is_space}
use legal_bridge.Analysis.Patterns.{
  Fields, spaces, many, some_of, literal, in_field, in_line, record_at, find_records, detail_of,
  behind_key, behind_value,
}

-- Whether a text may stand in a field: it has a first character, which is no space, and has no
-- character that ends the field.
abbrev pub Clean : (ℕ → Bool) → Text → Type 0
Clean p [] = ⊥
Clean p (c ∷ cs) = (is_space c ≡ false) × All (λ d. p d ≡ true) (c ∷ cs)

abbrev pub CleanFields : Fields → Type 0
CleanFields f = Clean in_field f.key × Clean in_field f.value × Clean in_line f.detail

-- A record as the documents have it.
unfoldable pub record_line : Fields → Text
record_line f =
    codes "RECORD: "
    ++ (f.key ++ (codes "| " ++ (f.value ++ (codes "| " ++ (f.detail ++ codes "\n")))))

module _ {A : Type 0} where
  -- A run of good characters is matched whole where the rest matches behind it.
  many_run :
      (p : ℕ → Bool) (k : Text → Text → Option A) (seen run rest : Text) (c : ℕ) (a : A)
      → All (λ d. p d ≡ true) run
      → p c ≡ false
      → k (seen ++ run) (c ∷ rest) ≡ some a
      → many p k seen (run ++ c ∷ rest) ≡ some a
  unfolding many
  many_run p k seen [] rest c a h e m =
      rw e (subst (λ s. k s (c ∷ rest) ≡ some a) (append-nil seen) m)
  many_run p k seen (d ∷ run) rest c a h e m =
      let later =
        many_run p k (seen ++ d ∷ []) run rest c a h.1 e
          (subst (λ s. k s (c ∷ rest) ≡ some a) (sym (append_assoc seen (d ∷ []) run)) m) in
      rw (h.0, later) refl

  some_of_run :
      (p : ℕ → Bool) (k : Text → Text → Option A) (run rest : Text) (c : ℕ) (a : A)
      → Clean p run
      → p c ≡ false
      → k run (c ∷ rest) ≡ some a
      → some_of p k (run ++ c ∷ rest) ≡ some a
  unfolding some_of
  some_of_run p k [] rest c a h e m = elim h [ ]
  some_of_run p k (d ∷ run) rest c a h e m =
      rw (h.1.0, many_run p k (d ∷ []) run rest c a h.1.1 e m) refl

  -- Behind a space that has been skipped, a text that starts with none is matched as it is.
  spaces_none :
      (k : Text → Option A) (p : ℕ → Bool) (run rest : Text)
      → Clean p run
      → spaces k (run ++ rest) ≡ k (run ++ rest)
  unfolding spaces
  spaces_none k p [] rest h = elim h [ ]
  spaces_none k p (d ∷ run) rest h = rw h.0 refl

  space_skipped :
      (k : Text → Option A) (p : ℕ → Bool) (run rest : Text) (a : A)
      → Clean p run
      → k (run ++ rest) ≡ some a
      → spaces k (32 ∷ (run ++ rest)) ≡ some a
  unfolding spaces
  space_skipped k p run rest a h m = rw (spaces_none k p run rest h ∙ m) refl

  -- One field: the space, the run, and what ends it.
  field_run :
      (p : ℕ → Bool) (k : Text → Text → Option A) (run rest : Text) (c : ℕ) (a : A)
      → Clean p run
      → p c ≡ false
      → k run (c ∷ rest) ≡ some a
      → spaces (some_of p k) (32 ∷ (run ++ c ∷ rest)) ≡ some a
  field_run p k run rest c a h e m =
      space_skipped (some_of p k) p run (c ∷ rest) a h (some_of_run p k run rest c a h e m)

abbrev spread : Fields → Text → Text
spread f rest =
    codes "RECORD: " ++ (f.key ++ 124 ∷ 32 ∷ (f.value ++ 124 ∷ 32 ∷ (f.detail ++ 10 ∷ rest)))

record_at-spread :
    (f : Fields) (rest : Text) → CleanFields f → record_at (spread f rest) ≡ some (f, 10 ∷ rest)
unfolding record_at
record_at-spread f rest (k, v, d) =
    field_run in_field behind_key f.key (32 ∷ (f.value ++ 124 ∷ 32 ∷ (f.detail ++ 10 ∷ rest))) 124
      (f, 10 ∷ rest) k refl
      (field_run in_field (behind_value f.key) f.value (32 ∷ (f.detail ++ 10 ∷ rest)) 124
        (f, 10 ∷ rest) v refl
        (field_run in_line (detail_of f.key f.value) f.detail rest 10 (f, 10 ∷ rest) d refl refl))

spread_lem : (f : Fields) (rest : Text) → record_line f ++ rest ≡ spread f rest
unfolding record_line
spread_lem f rest = simp append_assoc

-- The characters of a match are passed over.
skipped :
    (run rest : Text) (b : Bool)
    → (b' : Bool) × (find_records b (length run) (run ++ rest) ≡ find_records b' 0 rest)
unfolding find_records
skipped [] rest b = (b, refl)
skipped (c ∷ run) rest b = skipped run rest (c == 10)

at_newline : (b : Bool) (rest : Text) → find_records b 0 (10 ∷ rest) ≡ find_records true 0 rest
unfolding find_records record_at literal
at_newline true rest = refl
at_newline false rest = refl

-- A record's line behind its first letter.
abbrev body : Fields → Text
body f = codes "ECORD: " ++ (f.key ++ (codes "| " ++ (f.value ++ (codes "| " ++ f.detail))))

body_lem : (f : Fields) (rest : Text) → spread f rest ≡ 82 ∷ (body f ++ 10 ∷ rest)
body_lem f rest = simp append_assoc

match_step :
    (c : ℕ) (cs : Text) (f : Fields) (rest : Text)
    → record_at (c ∷ cs) ≡ some (f, rest)
    → find_records true 0 (c ∷ cs) ≡ f ∷ find_records (c == 10) (length cs - length rest) cs
unfolding find_records
match_step c cs f rest e =
    ap
      (λ (o : Option (Fields × Text)). elim o as (λ _. List Fields) [
        | none ↦ find_records (c == 10) 0 cs
        | some x ↦ x.0 ∷ find_records (c == 10) (length cs - length x.1) cs
      ])
      e

line_found :
    (f : Fields) (rest : Text)
    → CleanFields f
    → find_records true 0 (record_line f ++ rest) ≡ f ∷ find_records true 0 rest
line_found f rest h =
    let start = spread_lem f rest ∙ body_lem f rest in
    let e : record_at (82 ∷ (body f ++ 10 ∷ rest)) ≡ some (f, 10 ∷ rest) =
      subst (λ t. record_at t ≡ some (f, 10 ∷ rest)) (body_lem f rest)
        (record_at-spread f rest h) in
    let passed : length (body f ++ 10 ∷ rest) - length (10 ∷ rest) ≡ length (body f) =
      omega (arith, length-append (body f) (10 ∷ rest)) in
    let (b, s) = skipped (body f) (10 ∷ rest) false in
    ap (find_records true 0) start
    ∙ (match_step 82 (body f ++ 10 ∷ rest) f (10 ∷ rest) e
        ∙ ap (λ r. f ∷ r)
            (ap (λ n. find_records false n (body f ++ 10 ∷ rest)) passed ∙ (s ∙ at_newline b rest)))

-- Records of clean fields, written line by line, are found again, all of them, in order and nothing else.
pub find_records-record_line :
    (fs : List Fields)
    → All CleanFields fs
    → find_records true 0 (flatten (map record_line fs)) ≡ fs
unfolding find_records
find_records-record_line [] h = refl
find_records-record_line (f ∷ fs) h =
    line_found f (flatten (map record_line fs)) h.0
    ∙ ap (λ r. f ∷ r) (find_records-record_line fs h.1)
