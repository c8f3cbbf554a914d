-- ===== src/Extraction/Chunking.antt =====
-- The chunks of a text: each within the limit, and at least one.
use legal_bridge.Prelude.{
  ℕ, zero, suc, ◌≤◌, Bool, false, List, [], ◌∷◌, ◌++◌, ◌≡◌, arith, length, take, drop, All,
  length-take, length-drop, length-append, if-both, if-cases, ltb, not, ◌&&◌, ◌||◌, if◌then◌else◌,
}
use legal_bridge.Store.Schema.{Text}
use legal_bridge.Extraction.Sections.{is_empty, blank_line}
use legal_bridge.Extraction.Texts.{
  is_empty_text, strip, split_paragraphs, Chunks, close, shed, join_paragraph, add_paragraphs,
  chunk_text,
}
use legal_bridge.Extraction.Pieces.{Short, All-append}

some_chunk : (chunks : List Text) → is_empty chunks ≡ false → 1 ≤ length chunks
some_chunk [] e = ground (arith, e)
some_chunk (c ∷ cs) e = omega arith

or_false : (a b : Bool) → (a || b) ≡ false → b ≡ false
or_false a b e = ground (arith, e)

module _ (maximum : ℕ) where
  abbrev Good : Chunks → Type 0
  Good s = All (Short maximum) s.chunks × (length s.current ≤ maximum)

  close-Good : (s : Chunks) → Good s → Good (close s)
  close-Good s (h, k) =
      if-both Good (is_empty_text s.current) (h, k)
        (All-append maximum s.chunks (s.current ∷ []) h (k, tt), omega arith)

  shed-Good :
      (fuel : ℕ) (s : Chunks) (paragraph : Text)
      → 1 ≤ maximum
      → length paragraph ≤ fuel
      → Good s
      → Good (shed maximum fuel s paragraph).0
        × (length (shed maximum fuel s paragraph).1 ≤ maximum)
  unfolding shed
  shed-Good zero s paragraph m h g = (g, omega (arith, h))
  shed-Good (suc fuel) s paragraph m h g =
      let closed = close s in
      let (a, b) = close-Good s g in
      let slice = take maximum paragraph in
      let cut : Chunks = record closed { chunks = closed.chunks ++ slice ∷ [] } in
      let short : length slice ≤ maximum = omega (arith, length-take maximum paragraph) in
      let fewer : length (drop maximum paragraph) ≤ fuel =
        omega (arith, m, h, length-drop maximum paragraph) in
      if-cases (λ (r : Chunks × Text). Good r.0 × (length r.1 ≤ maximum))
        (ltb maximum (length paragraph))
        (λ e.
          shed-Good fuel cut (drop maximum paragraph) m fewer
            (All-append maximum closed.chunks (slice ∷ []) a (short, tt), b))
        (λ e. (g, ground (arith, e)))

  -- What is collected when the paragraph does not open a new chunk.
  candidate_short :
      (current paragraph : Text)
      → let candidate =
          if is_empty_text current then paragraph else current ++ (blank_line ++ paragraph) in
        length paragraph ≤ maximum
        → (ltb maximum (length candidate) && not (is_empty_text current)) ≡ false
        → length candidate ≤ maximum
  candidate_short [] paragraph p e = p
  candidate_short (c ∷ cs) paragraph p e = ground (arith, e)

  join_paragraph-Good :
      (s : Chunks) (paragraph : Text)
      → Good s
      → length paragraph ≤ maximum
      → Good (join_paragraph maximum s paragraph)
  unfolding join_paragraph
  join_paragraph-Good s paragraph (h, k) p =
      let candidate =
        if is_empty_text s.current then paragraph else s.current ++ (blank_line ++ paragraph) in
      if-cases Good (ltb maximum (length candidate) && not (is_empty_text s.current))
        (λ e. (All-append maximum s.chunks (s.current ∷ []) h (k, tt), p))
        (λ e. (h, candidate_short s.current paragraph p e))

  add_paragraphs-Good :
      (s : Chunks) (ps : List Text) → 1 ≤ maximum → Good s → Good (add_paragraphs maximum s ps)
  unfolding add_paragraphs
  add_paragraphs-Good s [] m g = g
  add_paragraphs-Good s (p ∷ ps) m g =
      let stripped = strip p in
      let r = shed maximum (length stripped) s stripped in
      let (a, b) = shed-Good (length stripped) s stripped m (omega arith) g in
      if-both Good (is_empty_text stripped) (add_paragraphs-Good s ps m g) (
        add_paragraphs-Good (join_paragraph maximum r.0 r.1) ps m (join_paragraph-Good r.0 r.1 a b))

  -- Where the limit is positive, a text has at least one chunk, and no chunk is longer than the limit.
  pub chunk_text_bounded :
      (value : Text)
      → 1 ≤ maximum
      → All (Short maximum) (chunk_text maximum value) × (1 ≤ length (chunk_text maximum value))
  unfolding chunk_text
  chunk_text_bounded value m =
      let s =
        add_paragraphs maximum (record { chunks = []; current = [] }) (split_paragraphs 0 value) in
      let (a, b) =
        add_paragraphs-Good (record { chunks = []; current = [] }) (split_paragraphs 0 value) m
          (tt, omega arith) in
      if-cases (λ chunks. All (Short maximum) chunks × (1 ≤ length chunks))
        (not (is_empty_text s.current) || is_empty s.chunks)
        (λ e. (
          All-append maximum s.chunks (s.current ∷ []) a (b, tt),
          omega (arith, length-append s.chunks (s.current ∷ [])),
        ))
        (λ e.
          (a, some_chunk s.chunks (or_false (not (is_empty_text s.current)) (is_empty s.chunks) e)))
