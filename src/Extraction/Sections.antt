-- ===== src/Extraction/Sections.antt =====
-- server/app/services/extraction.py: `_split_section`, which packs the blocks of a DOCX section
-- into pages. The closure `flush` and the loop's variables are functions on a state. Python's
-- `range` refuses the step 0; the settings allow no limit below 1,000.
use legal_bridge.Prelude.{
  ℕ, zero, suc, ◌+◌, max, Bool, true, false, Option, none, some, List, [], ◌∷◌, ◌++◌, ◌&&◌, not,
  map, length, take, drop, ltb, codes, join, decimal, flatten, if◌then◌else◌,
}
use legal_bridge.Store.Schema.{Text}
use legal_bridge.Extraction.Pages.{ExtractedPage}

-- `range(start, stop, step)`, on fuel.
unfoldable pub range : ℕ → ℕ → ℕ → ℕ → List ℕ
range zero start stop step = []
range (suc fuel) start stop step =
    let rest = range fuel (start + step) stop step in if ltb start stop then start ∷ rest else []

-- The slices of a block. Each step is at least 1, so that the range's end is fuel enough.
unfoldable pub pieces : ℕ → Text → List Text
unfolding range
pieces maximum_characters block =
    map (λ offset. take maximum_characters (drop offset block))
      (range (max 1 (length block)) 0 (max 1 (length block)) maximum_characters)

pub record Split : Type 0 where
  pub pages : List ExtractedPage
  pub current : List Text
  pub current_length : ℕ

abbrev pub is_empty {ℓ} : {A : Type ℓ} → List A → Bool
is_empty [] = true
is_empty (_ ∷ _) = false

abbrev pub blank_line : Text
blank_line = codes "\n\n"

-- The heading is shown where there is one and it is not the empty text.
abbrev pub suffix : Option Text → Text
suffix none = []
suffix (some []) = []
suffix (some (c ∷ cs)) = codes " — " ++ (c ∷ cs)

abbrev pub section_page : Option Text → ℕ → List Text → ExtractedPage
section_page heading page_number current = record {
  page_number = page_number;
  page_label = codes "Logical DOCX section " ++ (decimal page_number ++ suffix heading);
  extracted_text = join blank_line current;
  extraction_method = "docx_logical_section";
}

module _ (heading : Option Text) (page_number_start maximum_characters : ℕ) where
  unfoldable pub flush : Split → Split
  flush s = if is_empty s.current then s else record {
    pages = s.pages ++ section_page heading (page_number_start + length s.pages) s.current ∷ [];
    current = [];
    current_length = 0;
  }

  -- Whether a piece no longer fits behind the ones that are collected.
  abbrev pub overflows : Split → Text → Bool
  overflows s piece =
      let added_length = length piece + (if is_empty s.current then 0 else 2) in
      not (is_empty s.current) && ltb maximum_characters (s.current_length + added_length)

  abbrev pub append_piece : Split → Text → Split
  append_piece s piece =
      let current = s.current ++ piece ∷ [] in
      record s {
        current = current;
        current_length =
            s.current_length + (length piece + (if ltb 1 (length current) then 2 else 0));
      }

  unfoldable pub add_piece : Split → Text → Split
  unfolding flush
  add_piece s piece = append_piece (if overflows s piece then flush s else s) piece

  unfoldable pub add_pieces : Split → List Text → Split
  unfolding add_piece
  add_pieces s [] = s
  add_pieces s (piece ∷ rest) = add_pieces (add_piece s piece) rest

  unfoldable pub split_section : List Text → List ExtractedPage
  unfolding flush add_pieces pieces
  split_section blocks =
      (flush (
        add_pieces (record { pages = []; current = []; current_length = 0 })
          (flatten (map (pieces maximum_characters) blocks)))).pages
