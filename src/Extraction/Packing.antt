-- ===== src/Extraction/Packing.antt =====
-- What `_split_section` makes of the blocks: pages within the limit, numbered in order, that hold
-- every piece of every block.
use legal_bridge.Prelude.{
  ℕ, ◌+◌, ◌≤◌, false, Option, List, [], ◌∷◌, ◌++◌, ◌≡◌, refl, sym, ap, subst, ◌∙◌, map, arith,
  length, All, join, flatten, flatten-append, length-append, append-nil, append_assoc, if-both,
  if-cases, ltb, not, ◌&&◌, if◌then◌else◌,
}
use legal_bridge.Store.Schema.{Text}
use legal_bridge.Extraction.Pages.{ExtractedPage, character_count}
use legal_bridge.Extraction.Pieces.{pieces-Short, all_pieces_whole}
use legal_bridge.Extraction.Sections.{
  pieces, Split, is_empty, blank_line, section_page, flush, overflows, append_piece, add_piece,
  add_pieces, split_section,
}

-- The pages are numbered one by one from `n` on.
abbrev pub Numbered : ℕ → List ExtractedPage → Type 0
Numbered n [] = Unit
Numbered n (page ∷ pages) = (page.page_number ≡ n) × Numbered (n + 1) pages

Numbered-append :
    (n : ℕ) (pages : List ExtractedPage) (page : ExtractedPage)
    → Numbered n pages
    → page.page_number ≡ n + length pages
    → Numbered n (pages ++ page ∷ [])
Numbered-append n [] page h e = (omega (arith, e), tt)
Numbered-append n (p ∷ pages) page h e =
    (h.0, Numbered-append (n + 1) pages page h.1 (omega (arith, e)))

All-append :
    (P : ExtractedPage → Type 0) (pages : List ExtractedPage) (page : ExtractedPage)
    → All P pages
    → P page
    → All P (pages ++ page ∷ [])
All-append P [] page h k = (k, tt)
All-append P (p ∷ pages) page h k = (h.0, All-append P pages page h.1 k)

-- The length of a page's text when a piece is added to it.
length-join :
    (parts : List Text) (piece : Text)
    → length (join blank_line (parts ++ piece ∷ []))
      ≡ length (join blank_line parts)
        + (length piece + (if ltb 1 (length (parts ++ piece ∷ [])) then 2 else 0))
unfolding join
length-join [] piece = omega arith
length-join (x ∷ []) piece = omega (arith, length-append x (10 ∷ 10 ∷ piece))
length-join (x ∷ y ∷ parts) piece = ground (
  arith,
  length-join (y ∷ parts) piece,
  length-append x (10 ∷ 10 ∷ join blank_line (y ∷ (parts ++ piece ∷ []))),
  length-append x (10 ∷ 10 ∷ join blank_line (y ∷ parts)),
  length-append parts (piece ∷ []),
)

map-append_one :
    {A B : Type 0} (f : A → B) (xs : List A) (x : A) → map f (xs ++ x ∷ []) ≡ map f xs ++ f x ∷ []
map-append_one f [] x = refl
map-append_one f (y ∷ xs) x = ap (λ r. f y ∷ r) (map-append_one f xs x)

module _ (heading : Option Text) (start maximum : ℕ) where
  abbrev pub Fits : ExtractedPage → Type 0
  Fits page = character_count page ≤ maximum

  abbrev Good : Split → Type 0
  Good s =
      (s.current_length ≡ length (join blank_line s.current))
      × (s.current_length ≤ maximum)
      × All Fits s.pages
      × Numbered start s.pages

  flush-Good : (s : Split) → Good s → Good (flush heading start maximum s)
  unfolding flush join
  flush-Good s (e, b, f, n) =
      if-both Good (is_empty s.current) (e, b, f, n)
        (
          refl,
          omega arith,
          All-append Fits s.pages (section_page heading (start + length s.pages) s.current) f
              (omega (arith, e, b)),
          Numbered-append start s.pages (section_page heading (start + length s.pages) s.current) n
              refl,
        )

  append_piece-Good :
      (s : Split) (piece : Text)
      → Good s
      → length (join blank_line (s.current ++ piece ∷ [])) ≤ maximum
      → Good (append_piece heading start maximum s piece)
  append_piece-Good s piece (e, b, f, n) h =
      let l = length-join s.current piece in (omega (arith, e, l), omega (arith, e, l, h), f, n)

  flushed_empty : (s : Split) → (flush heading start maximum s).current ≡ []
  unfolding flush
  flushed_empty s =
      elim s.current
        as (λ c. (flush heading start maximum (record s { current = c })).current ≡ []) [
          | [] ↦ refl
          | x ∷ xs ↦ refl
        ]

  -- A piece that does not overflow fits behind the ones that are collected.
  room :
      (current : List Text) (piece : Text) (n : ℕ)
      → n ≡ length (join blank_line current)
      → length piece ≤ maximum
      → (not (is_empty current)
          && ltb maximum (n + (length piece + (if is_empty current then 0 else 2))))
        ≡ false
      → length (join blank_line (current ++ piece ∷ [])) ≤ maximum
  unfolding join
  room [] piece n e h o = h
  room (x ∷ xs) piece n e h o =
      ground (arith, e, length-join (x ∷ xs) piece, length-append xs (piece ∷ []))

  add_piece-Good :
      (s : Split) (piece : Text)
      → length piece ≤ maximum
      → Good s
      → Good (add_piece heading start maximum s piece)
  unfolding add_piece join
  add_piece-Good s piece h g =
      if-cases (λ t. Good (append_piece heading start maximum t piece))
        (overflows heading start maximum s piece)
        (λ o. append_piece-Good (flush heading start maximum s) piece (flush-Good s g) (
          subst (λ c. length (join blank_line (c ++ piece ∷ [])) ≤ maximum) (sym (flushed_empty s))
            h))
        (λ o. append_piece-Good s piece g (room s.current piece s.current_length g.0 h o))

  add_pieces-Good :
      (s : Split) (ps : List Text)
      → All (λ piece. length piece ≤ maximum) ps
      → Good s
      → Good (add_pieces heading start maximum s ps)
  unfolding add_pieces
  add_pieces-Good s [] h g = g
  add_pieces-Good s (piece ∷ ps) h g =
      add_pieces-Good (add_piece heading start maximum s piece) ps h.1
        (add_piece-Good s piece h.0 g)

  -- What is stored and collected, as groups of the pieces that have been read, in order.
  abbrev text : ExtractedPage → Text
  text page = page.extracted_text

  abbrev Holds : List Text → Split → Type 0
  Holds read s =
      (groups : List (List Text)) × (map text s.pages ≡ map (join blank_line) groups)
      × (flatten groups ++ s.current ≡ read)

  flush-Holds :
      (read : List Text) (s : Split) → Holds read s → Holds read (flush heading start maximum s)
  unfolding flush
  flush-Holds read s (groups, e, r) =
      if-both (Holds read) (is_empty s.current) (groups, e, r)
        (
          groups ++ s.current ∷ [],
          map-append_one text s.pages (section_page heading (start + length s.pages) s.current)
              ∙ (ap (λ ts. ts ++ join blank_line s.current ∷ []) e
                  ∙ sym (map-append_one (join blank_line) groups s.current)),
          append-nil (flatten (groups ++ s.current ∷ []))
              ∙ (flatten-append groups (s.current ∷ [])
                  ∙ (ap (λ c. flatten groups ++ c) (append-nil s.current) ∙ r)),
        )

  append_piece-Holds :
      (read : List Text) (s : Split) (piece : Text)
      → Holds read s
      → Holds (read ++ piece ∷ []) (append_piece heading start maximum s piece)
  append_piece-Holds read s piece (groups, e, r) = (
    groups,
    e,
    sym (append_assoc (flatten groups) s.current (piece ∷ [])) ∙ ap (λ c. c ++ piece ∷ []) r,
  )

  add_piece-Holds :
      (read : List Text) (s : Split) (piece : Text)
      → Holds read s
      → Holds (read ++ piece ∷ []) (add_piece heading start maximum s piece)
  unfolding add_piece
  add_piece-Holds read s piece h =
      if-both (λ t. Holds (read ++ piece ∷ []) (append_piece heading start maximum t piece))
        (overflows heading start maximum s piece)
        (append_piece-Holds read (flush heading start maximum s) piece (flush-Holds read s h))
        (append_piece-Holds read s piece h)

  add_pieces-Holds :
      (read ps : List Text) (s : Split)
      → Holds read s
      → Holds (read ++ ps) (add_pieces heading start maximum s ps)
  unfolding add_pieces
  add_pieces-Holds read [] s h = subst (λ r. Holds r s) (sym (append-nil read)) h
  add_pieces-Holds read (piece ∷ ps) s h =
      subst
        (λ r.
          Holds r (add_pieces heading start maximum (add_piece heading start maximum s piece) ps))
        (append_assoc read (piece ∷ []) ps)
        (add_pieces-Holds (read ++ piece ∷ []) ps (add_piece heading start maximum s piece)
          (add_piece-Holds read s piece h))

  -- The pages of a section, where the limit is positive: each is within the limit, they are numbered
  -- one by one from the start number, and their texts are groups of texts joined by blank lines
  -- that make up the blocks, with nothing lost and in order.
  pub split_section_packs :
      (blocks : List Text)
      → 1 ≤ maximum
      → let pages = split_section heading start maximum blocks in
        All Fits pages
        × Numbered start pages
        × ((groups : List (List Text)) × (map text pages ≡ map (join blank_line) groups)
            × (flatten (flatten groups) ≡ flatten blocks))
  unfolding split_section join
  split_section_packs blocks h =
      let first : Split = record { pages = []; current = []; current_length = 0 } in
      let read = flatten (map (pieces maximum) blocks) in
      let s = add_pieces heading start maximum first read in
      let good : Good first = (refl, omega arith, tt, tt) in
      let g = flush-Good s (add_pieces-Good first read (pieces-Short maximum blocks) good) in
      let (groups, e, r) = flush-Holds read s (add_pieces-Holds [] read first ([], refl, refl)) in
      let whole : flatten groups ≡ read =
        sym (append-nil (flatten groups))
        ∙ (ap (λ c. flatten groups ++ c) (sym (flushed_empty s)) ∙ r) in
      (g.2, g.3, (groups, e, ap flatten whole ∙ all_pieces_whole maximum blocks h))
