-- ===== src/Copilot/Questions.antt =====
-- server/app/services/platform.py, `copilot_answer`: what a question asks for, the files that it
-- names, and the pages that are selected for it.
use legal_bridge.Prelude.{
  ℕ, String, Bool, true, false, Option, none, some, List, [], ◌∷◌, ◌++◌, ◌||◌, ◌==◌, any, filter,
  map, take, sort_by, length, ltb, leb, ◌&&◌, codes, text_eq, contains, if◌then◌else◌,
}
use legal_bridge.Store.Schema.{Text, DocumentRecord, Reference}
use legal_bridge.Extraction.Sections.{is_empty}
use legal_bridge.Extraction.Texts.{is_empty_text}
use legal_bridge.Extraction.Pages.{without}
use legal_bridge.Analysis.Patterns.{Python}
use legal_bridge.Analysis.Observations.{Source, source_le}
use legal_bridge.Copilot.{reference, dedup_refs}

abbrev pub names_any : List String → Text → Bool
names_any phrases lowered = any (λ p. contains (codes p) lowered) phrases

module _ (lowered : Text) where
  unfoldable pub is_summary : Bool
  is_summary = names_any ("summar" ∷ "entire case" ∷ "overview" ∷ "all documents" ∷ []) lowered

  unfoldable pub is_compare : Bool
  is_compare = names_any ("compar" ∷ "contrast" ∷ "difference" ∷ "vs " ∷ "versus" ∷ []) lowered

  unfoldable pub is_timeline : Bool
  is_timeline = names_any ("chronolog" ∷ "timeline" ∷ "sequence" ∷ "order of events" ∷ []) lowered

  unfoldable pub is_contradiction : Bool
  is_contradiction =
      names_any ("contradict" ∷ "inconsisten" ∷ "discrepanc" ∷ "conflict" ∷ []) lowered

  unfoldable pub is_similar : Bool
  is_similar =
      names_any
        ("similar case" ∷ "previous case" ∷ "prior case" ∷ "related case" ∷ "same organisation"
          ∷ "same organization" ∷ "other case" ∷ [])
        lowered

  unfoldable pub is_report : Bool
  is_report =
      names_any ("generate" ∷ "report" ∷ "pdf" ∷ "docx" ∷ "export" ∷ "download" ∷ []) lowered

  unfoldable pub is_broad : Bool
  unfolding is_summary is_timeline is_compare is_contradiction is_similar
  is_broad = is_summary || is_timeline || is_compare || is_contradiction || is_similar

-- What stands before the last full stop.
unfoldable pub before_last_dot : Text → Option Text
before_last_dot [] = none
before_last_dot (c ∷ cs) = elim (before_last_dot cs) [
  | some stem ↦ some (c ∷ stem)
  | none ↦ if c == 46 then some [] else none
]

-- `name.rsplit(".", 1)[0]`
unfoldable pub stem_of : Text → Text
unfolding before_last_dot
stem_of name = elim (before_last_dot name) [ none ↦ name | some stem ↦ stem ]

-- `[a-z0-9-]`
abbrev pub is_token_char : ℕ → Bool
is_token_char c = (leb 97 c && leb c 122) || (leb 48 c && leb c 57) || (c == 45)

-- `re.findall(r"[a-z0-9-]+", text)`, with the token that is being read.
unfoldable pub tokens : Text → List ℕ → List Text
tokens token [] = if is_empty_text token then [] else token ∷ []
tokens token (c ∷ cs) =
    let longer = tokens (token ++ c ∷ []) cs in
    let next = tokens [] cs in
    if is_token_char c then longer else if is_empty_text token then next else token ∷ next

unfoldable pub relevant_tokens : Text → List Text
unfolding tokens
relevant_tokens lowered = filter (λ t. ltb 3 (length t)) (tokens [] lowered)

module _ (python : Python) where
  abbrev pub folded_name : DocumentRecord → Text
  folded_name d = python.casefold (codes d.original_filename)

  unfoldable pub is_mentioned : Text → DocumentRecord → Bool
  unfolding stem_of
  is_mentioned lowered d =
      contains (folded_name d) lowered
      || contains (python.casefold (stem_of (codes d.original_filename))) lowered

  -- The set of the names, as a list without repetition.
  unfoldable pub mentioned_filenames : Text → List Source → List Text
  unfolding is_mentioned
  mentioned_filenames lowered rows = without [] (
      map (λ (s : Source). folded_name s.1)
        (filter (λ (s : Source). is_mentioned lowered s.1) rows))

  abbrev pub is_of_files : List Text → Source → Bool
  is_of_files names s = any (text_eq (folded_name s.1)) names

  unfoldable pub candidates : List Text → List Source → List Source
  candidates names rows = if is_empty names then rows else filter (is_of_files names) rows

-- Whether the score of the first text for a query is above that of the second. The scores are
-- floating-point numbers.
pub record Relevance : Type 0 where
  pub higher : Text → Text → Text → Bool

-- The order of the keys (-score, filename, page_number).
abbrev pub scored_le : Relevance → Text → Source → Source → Bool
scored_le relevance question a b =
    if relevance.higher question a.0.extracted_text b.0.extracted_text
    then true
    else if relevance.higher question b.0.extracted_text a.0.extracted_text
    then false
    else source_le a b

unfoldable pub selected_pages : Relevance → Text → Bool → List Source → List Source
unfolding sort_by
selected_pages relevance question broad pages =
    let scored = sort_by (scored_le relevance question) pages in
    take (if broad then length scored else 5) scored

-- `_dedup_refs([_ref(p, d) for ...])`
abbrev pub references_of : List Source → List Reference
references_of pages = dedup_refs [] (map reference pages)
