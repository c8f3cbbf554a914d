-- ===== src/Extraction/Texts.antt =====
-- server/app/services/extraction.py: `_normalise_text`, `_meaningful`, `_table_text` and
-- `_chunk_text`, on texts as lists of code points.
use legal_bridge.Prelude.{
  ℕ, zero, suc, ◌+◌, Bool, true, false, List, [], ◌∷◌, ◌++◌, ◌&&◌, ◌||◌, not, map, length, take,
  drop, filter, ltb, leb, ◌==◌, codes, text_eq, join, if◌then◌else◌,
}
use legal_bridge.Store.Schema.{Text}
use legal_bridge.Extraction.Sections.{is_empty, blank_line}

abbrev pub is_empty_text : Text → Bool
is_empty_text [] = true
is_empty_text (_ ∷ _) = false

-- Whether the value is the last one kept.
abbrev pub repeats : List Text → Text → Bool
repeats [] value = false
repeats (last ∷ _) value = text_eq last value

-- Carriage returns, with a line feed behind them or without, become line feeds.
unfoldable pub line_feeds : Text → Text
line_feeds [] = []
line_feeds (c ∷ []) = (if c == 13 then 10 else c) ∷ []
line_feeds (c ∷ d ∷ rest) =
    let pair = line_feeds rest in
    let single = line_feeds (d ∷ rest) in
    if (c == 13) && (d == 10) then 10 ∷ pair else (if c == 13 then 10 else c) ∷ single

abbrev pub cons_first : ℕ → List Text → List Text
cons_first c [] = (c ∷ []) ∷ []
cons_first c (t ∷ ts) = (c ∷ t) ∷ ts

-- `text.split(separator)` for a single character.
unfoldable pub split_on : ℕ → Text → List Text
split_on separator [] = [] ∷ []
split_on separator (c ∷ cs) =
    let rest = split_on separator cs in if c == separator then [] ∷ rest else cons_first c rest

unfoldable pub rstrip : (ℕ → Bool) → Text → Text
rstrip p [] = []
rstrip p (c ∷ cs) = let rest = rstrip p cs in if is_empty_text rest && p c then [] else c ∷ rest

unfoldable pub lstrip : (ℕ → Bool) → Text → Text
lstrip p [] = []
lstrip p (c ∷ cs) = let rest = lstrip p cs in if p c then rest else c ∷ cs

-- `str.isspace`
abbrev pub is_space : ℕ → Bool
is_space c =
    (leb 9 c && leb c 13)
    || (leb 28 c && leb c 32)
    || (c == 133)
    || (c == 160)
    || (c == 5760)
    || (leb 8192 c && leb c 8202)
    || (c == 8232)
    || (c == 8233)
    || (c == 8239)
    || (c == 8287)
    || (c == 12288)

-- `str.strip`
unfoldable pub strip : Text → Text
unfolding rstrip lstrip
strip text = lstrip is_space (rstrip is_space text)

abbrev pub is_allowed : Bool → ℕ → Bool
is_allowed preserve_form_feed c =
    (c == 10) || (c == 9) || (preserve_form_feed && (c == 12)) || (leb 32 c && not (c == 127))

abbrev pub is_blank : ℕ → Bool
is_blank c = (c == 32) || (c == 9)

unfoldable pub normalise_text : Bool → Text → Text
unfolding line_feeds split_on rstrip strip join
normalise_text preserve_form_feed value =
    let normalized = filter (is_allowed preserve_form_feed) (line_feeds value) in
    strip (join (10 ∷ []) (map (rstrip is_blank) (split_on 10 normalized)))

-- `replace("\n", " / ")`
abbrev pub one_line : Text → Text
one_line [] = []
one_line (c ∷ cs) = (if c == 10 then codes " / " else c ∷ []) ++ one_line cs

-- The values of a row: an empty one and one equal to the last one kept are left out.
unfoldable pub row_values : List Text → List Text → List Text
unfolding normalise_text
row_values last [] = []
row_values last (cell ∷ cells) =
    let value = one_line (normalise_text false cell) in
    let skipped = row_values last cells in
    let kept = row_values (value ∷ []) cells in
    if is_empty_text value || repeats last value then skipped else value ∷ kept

unfoldable pub row_texts : List (List Text) → List Text
unfolding row_values join
row_texts [] = []
row_texts (row ∷ rows) =
    let rest = row_texts rows in
    let values = row_values [] row in
    if is_empty values then rest else join (codes " | ") values ∷ rest

unfoldable pub table_text : List (List Text) → Text
unfolding row_texts join
table_text rows = join (10 ∷ []) (row_texts rows)

abbrev pub line_feed_run : ℕ → Text
line_feed_run zero = []
line_feed_run (suc n) = 10 ∷ line_feed_run n

abbrev pub prefix_first : Text → List Text → List Text
prefix_first t [] = t ∷ []
prefix_first t (u ∷ us) = (t ++ u) ∷ us

-- `re.split(r"\n{2,}", value)`, behind `n` line feeds that have been read.
unfoldable pub split_paragraphs : ℕ → Text → List Text
split_paragraphs n [] = if leb 2 n then [] ∷ [] ∷ [] else line_feed_run n ∷ []
split_paragraphs n (c ∷ cs) =
    let longer = split_paragraphs (n + 1) cs in
    let rest = cons_first c (split_paragraphs 0 cs) in
    if c == 10 then longer else (if leb 2 n then [] ∷ rest else prefix_first (line_feed_run n) rest)

pub record Chunks : Type 0 where
  pub chunks : List Text
  pub current : Text

abbrev pub close : Chunks → Chunks
close s =
    if is_empty_text s.current
    then s
    else record { chunks = s.chunks ++ s.current ∷ []; current = [] }

module _ (maximum_characters : ℕ) where
  -- The inner loop: slices are cut off a long paragraph. The paragraph's length is fuel enough.
  unfoldable pub shed : ℕ → Chunks → Text → Chunks × Text
  shed zero s paragraph = (s, paragraph)
  shed (suc fuel) s paragraph =
      let closed = close s in
      let cut = record closed {
        chunks = closed.chunks ++ take maximum_characters paragraph ∷ [];
      } in
      let rest = shed fuel cut (drop maximum_characters paragraph) in
      if ltb maximum_characters (length paragraph) then rest else (s, paragraph)

  unfoldable pub join_paragraph : Chunks → Text → Chunks
  join_paragraph s paragraph =
      let candidate =
        if is_empty_text s.current then paragraph else s.current ++ (blank_line ++ paragraph) in
      if ltb maximum_characters (length candidate) && not (is_empty_text s.current)
      then record { chunks = s.chunks ++ s.current ∷ []; current = paragraph }
      else record s { current = candidate }

  unfoldable pub add_paragraphs : Chunks → List Text → Chunks
  unfolding shed join_paragraph strip
  add_paragraphs s [] = s
  add_paragraphs s (paragraph ∷ rest) =
      let stripped = strip paragraph in
      let shed_state = shed (length stripped) s stripped in
      let skipped = add_paragraphs s rest in
      let added = add_paragraphs (join_paragraph shed_state.0 shed_state.1) rest in
      if is_empty_text stripped then skipped else added

  unfoldable pub chunk_text : Text → List Text
  unfolding add_paragraphs split_paragraphs
  chunk_text value =
      let s = add_paragraphs (record { chunks = []; current = [] }) (split_paragraphs 0 value) in
      if not (is_empty_text s.current) || is_empty s.chunks
      then s.chunks ++ s.current ∷ []
      else s.chunks
