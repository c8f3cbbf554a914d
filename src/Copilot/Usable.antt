-- ===== src/Copilot/Usable.antt =====
-- server/app/services/platform.py: `_usable_nim_content`.
use legal_bridge.Prelude.{
  ℕ, zero, suc, ◌+◌, ◌-◌, String, Bool, true, Option, none, some, List, [], ◌∷◌, ◌&&◌, ◌||◌, ◌==◌,
  any, map, length, ltb, leb, codes, text_eq, lower_char, is_prefix, join, if◌then◌else◌,
}
use legal_bridge.Store.Schema.{Text}
use legal_bridge.Extraction.Texts.{is_space, cons_first, line_feeds, strip, lstrip}
use legal_bridge.Analysis.Patterns.{Python}
use legal_bridge.Copilot.Questions.{names_any}

-- `[\s\-–—:;,.#]`
abbrev pub is_lead : ℕ → Bool
is_lead c =
    is_space c
    || (c == 45)
    || (c == 8211)
    || (c == 8212)
    || (c == 58)
    || (c == 59)
    || (c == 44)
    || (c == 46)
    || (c == 35)

-- Case is ignored; the long s matches an s.
abbrev pub fold_char : ℕ → ℕ
fold_char c = if c == 383 then 115 else lower_char c

abbrev pub internal_phrases : List String
internal_phrases =
    "we need to answer" ∷ "now produce answer" ∷ "let us analyse" ∷ "we need craft" ∷ []

-- From the line feed on.
unfoldable pub behind_line : Text → Text
behind_line [] = []
behind_line (c ∷ cs) = if c == 10 then c ∷ cs else behind_line cs

-- The length of the match at the start of a line.
unfoldable pub internal_line : Text → Option ℕ
unfolding lstrip behind_line
internal_line text =
    let body = lstrip is_space text in
    if any (λ p. is_prefix (codes p) (map fold_char body)) internal_phrases
    then some (length text - length (behind_line body))
    else none

-- The second `re.sub`; `skip` counts the characters of the match that are still ahead.
unfoldable pub without_internal : Bool → ℕ → Text → Text
unfolding internal_line
without_internal line_start skip [] = []
without_internal line_start (suc skip) (c ∷ cs) = without_internal (c == 10) skip cs
without_internal line_start zero (c ∷ cs) =
    elim (if line_start then internal_line (c ∷ cs) else none) [
      | none ↦ c ∷ without_internal (c == 10) 0 cs
      | some n ↦ without_internal (c == 10) (n - 1) cs
    ]

-- The third `re.sub`, behind `n` line feeds that were kept.
unfoldable pub few_line_feeds : ℕ → Text → Text
few_line_feeds n [] = []
few_line_feeds n (c ∷ cs) =
    let skipped = few_line_feeds n cs in
    let kept = c ∷ few_line_feeds (n + 1) cs in
    let other = c ∷ few_line_feeds 0 cs in
    if c == 10 then (if leb 2 n then skipped else kept) else other

abbrev pub is_line_break : ℕ → Bool
is_line_break c =
    (leb 10 c && leb c 13) || (leb 28 c && leb c 30) || (c == 133) || (c == 8232) || (c == 8233)

-- `str.splitlines`, where the carriage returns are line feeds.
unfoldable pub split_lines : Text → List Text
split_lines [] = []
split_lines (c ∷ cs) =
    let rest = split_lines cs in if is_line_break c then [] ∷ rest else cons_first c rest

abbrev pub headings : List String
headings =
    "sources" ∷ "direct answer" ∷ "what the records show" ∷ "important inconsistencies"
    ∷ "recommended next steps" ∷ []

abbrev pub is_hash : ℕ → Bool
is_hash c = c == 35

module _ (python : Python) where
  unfoldable pub heading_of_line : Text → Text
  unfolding strip lstrip
  heading_of_line line = strip (lstrip is_hash (python.casefold (strip line)))

  abbrev pub is_heading : Text → Bool
  is_heading heading = any (λ h. text_eq heading (codes h)) headings

  -- A heading that was seen before is left out.
  unfoldable pub kept_lines : List Text → List Text → List Text
  unfolding heading_of_line
  kept_lines seen [] = []
  kept_lines seen (line ∷ lines) =
      let heading = heading_of_line line in
      let skipped = kept_lines seen lines in
      let first = line ∷ kept_lines (heading ∷ seen) lines in
      let plain = line ∷ kept_lines seen lines in
      if is_heading heading then (if any (text_eq heading) seen then skipped else first) else plain

  -- `_usable_nim_content`, of a content that is a string or is not.
  unfoldable pub usable_nim_content : Option Text → Option Text
  unfolding without_internal few_line_feeds split_lines kept_lines strip lstrip line_feeds join
  usable_nim_content none = none
  usable_nim_content (some content) =
      let stripped = lstrip is_lead (strip content) in
      let collapsed = few_line_feeds 0 (without_internal true 0 stripped) in
      let normalized =
        strip (join (codes "\n") (kept_lines [] (split_lines (line_feeds collapsed)))) in
      if ltb (length normalized) 80
        || names_any ("we need to answer" ∷ "let us analyse" ∷ "we need craft" ∷ [])
            (python.casefold normalized)
      then none
      else some normalized
