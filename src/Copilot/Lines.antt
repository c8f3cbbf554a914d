-- ===== src/Copilot/Lines.antt =====
-- server/app/services/platform.py, `copilot_answer`: the lines that its answers are made of.
use legal_bridge.Prelude.{
  ℕ, ◌+◌, ◌/◌, ◌%◌, String, Bool, Option, none, some, List, [], ◌∷◌, ◌++◌, ◌&&◌, ◌==◌, not, any,
  find, filter, map, take, length, flatten, codes, decimal, text_eq, join, if◌then◌else◌,
}
use legal_bridge.Store.Schema.{Uuid, Text, TimelineEventRecord, ContradictionRecord}
use legal_bridge.Extraction.Texts.{is_empty_text, strip}
use legal_bridge.Analysis.Patterns.{Python}
use legal_bridge.Analysis.Observations.{Source, words}
use legal_bridge.Analysis.Timeline.{spaced}
use legal_bridge.Copilot.{PageRecord}
use legal_bridge.Copilot.Questions.{tokens}
use legal_bridge.Copilot.Groups.{Groups, several, value_of}

abbrev pub dash : Text
dash = codes "—"

-- `[filename p.N]`, with a space before it.
abbrev pub label_of : Source → Text
label_of (page, document) = flatten (
    codes " ["
    ∷ codes document.original_filename
    ∷ codes " p."
    ∷ decimal page.page_number
    ∷ codes "]"
    ∷ [])

-- The first `n` characters of the text of a page, on one line.
abbrev pub page_excerpt : ℕ → Source → Text
page_excerpt n (page, document) =
    take n (join (codes " ") (words [] page.extracted_text)) ++ label_of (page, document)

abbrev pub two_digits : ℕ → Text
two_digits n = (48 + n / 10 % 10) ∷ (48 + n % 10) ∷ []

-- `str` of a time of the day, in minutes.
abbrev pub show_time : ℕ → Text
show_time minutes =
    flatten (two_digits (minutes / 60) ∷ codes ":" ∷ two_digits (minutes % 60) ∷ codes ":00" ∷ [])

abbrev pub is_from : Uuid → Source → Bool
is_from document_id s = s.1.id == document_id

abbrev pub is_page_of : Uuid → Option Uuid → Source → Bool
is_page_of document_id none s = is_from document_id s
is_page_of document_id (some page_id) s = is_from document_id s && (s.0.id == page_id)

-- The name of the document's first row with the number of the other row's page.
abbrev pub label_from : Option Source → Option Source → Text
label_from (some s) (some t) = label_of (t.0, s.1)
label_from (some s) none = []
label_from none row = []

module _ (all_rows : List Source) where
  abbrev pub event_source : Option Uuid → Option Uuid → Text
  event_source none page_id = []
  event_source (some document_id) page_id =
      label_from (find (is_from document_id) all_rows)
        (find (is_page_of document_id page_id) all_rows)

  -- The label of a side of a contradiction: its document's first page.
  abbrev pub side_source : Option Uuid → Text
  side_source document_id = event_source document_id none

  abbrev pub side_line : String → Text → Option Uuid → List Text
  side_line side text document_id =
      if is_empty_text text
      then []
      else flatten (codes side ∷ text ∷ side_source document_id ∷ []) ∷ []

  abbrev pub contradiction_lines : ContradictionRecord → List Text
  contradiction_lines c =
      flatten
        (codes "**" ∷ codes c.title ∷ codes "** (severity: " ∷ codes c.severity ∷ codes ")" ∷ [])
      ∷ (codes "  " ++ c.description)
      ∷ (side_line "  Source A: " c.source_a_excerpt c.source_a_document_id
          ++ side_line "  Source B: " c.source_b_excerpt c.source_b_document_id)

  module _ (show_date : ℕ → Text) where
    abbrev pub date_shown : Option ℕ → Text
    date_shown none = []
    date_shown (some day) = show_date day

    abbrev pub event_moment : Option ℕ → Option ℕ → Text
    event_moment event_date none = date_shown event_date
    event_moment event_date (some minutes) =
        strip (date_shown event_date ++ (codes " " ++ show_time minutes))

    abbrev pub event_line : TimelineEventRecord → Text
    event_line ev = flatten (
        codes "• "
        ∷ event_moment ev.event_date ev.event_time
        ∷ codes " — "
        ∷ codes ev.title
        ∷ codes ": "
        ∷ ev.description
        ∷ event_source ev.source_document_id ev.source_page_id
        ∷ [])

module _ (python : Python) where
  -- `key.replace('_', ' ').title()`
  abbrev pub titled_key : Text → Text
  titled_key key = python.titlecase (spaced key)

  -- `- Key: value. detail [label]`
  abbrev pub bullet : PageRecord → Text
  bullet r = flatten (
      codes "- "
      ∷ titled_key r.key
      ∷ codes ": "
      ∷ r.value
      ∷ codes ". "
      ∷ r.detail
      ∷ label_of r.source
      ∷ [])

  abbrev pub time_line : PageRecord → Text
  time_line r = flatten (
      codes "• "
      ∷ titled_key r.key
      ∷ codes ": "
      ∷ r.value
      ∷ codes " — "
      ∷ r.detail
      ∷ label_of r.source
      ∷ [])

  abbrev pub quoted_line : PageRecord → Text
  quoted_line r =
      flatten (codes "  • \"" ∷ r.value ∷ codes "\" — " ∷ r.detail ∷ label_of r.source ∷ [])

  abbrev pub value_line : PageRecord → Text
  value_line r = flatten (codes "  • " ∷ r.value ∷ codes " — " ∷ r.detail ∷ label_of r.source ∷ [])

  -- A key whose records have several values, and its records.
  abbrev pub conflict_lines : (Text × List PageRecord) → List Text
  conflict_lines (key, entries) =
      flatten (
        codes "**"
        ∷ titled_key key
        ∷ codes "** — "
        ∷ decimal (length entries)
        ∷ codes " differing values:"
        ∷ [])
      ∷ map quoted_line entries

  abbrev pub summary_lines : (Text × List PageRecord) → List Text
  summary_lines (key, entries) =
      flatten (
        codes "**"
        ∷ titled_key key
        ∷ codes "**"
        ∷ (if several (map value_of entries)
            then codes " [MULTIPLE VALUES — possible contradiction]"
            else [])
        ∷ [])
      ∷ map value_line (take 3 entries)

  -- The value of the first of the records that has the key.
  abbrev pub value_or_dash : Text → List PageRecord → Text
  value_or_dash key entries = elim (find (λ (r : PageRecord). text_eq r.key key) entries) [
    | none ↦ dash
    | some r ↦ r.value
  ]

  module _ (selected : List Source) where
    abbrev pub page_of_name : Text → Text
    page_of_name name =
        elim (find (λ (s : Source). text_eq (codes s.1.original_filename) name) selected) [
          | none ↦ codes "?"
          | some s ↦ decimal s.0.page_number
        ]

    abbrev pub name_line : Text → (Text × List PageRecord) → Text
    name_line key (name, entries) = flatten (
        codes "  • "
        ∷ name
        ∷ codes " p."
        ∷ page_of_name name
        ∷ codes ": "
        ∷ value_or_dash key entries
        ∷ [])

    -- A key in the documents that are compared.
    abbrev pub comparison_lines : Groups → Text → List Text
    comparison_lines documents key =
        let values =
          filter (λ v. not (text_eq v dash))
            (map (λ (g : Text × List PageRecord). value_or_dash key g.1) documents) in
        flatten (
          codes "**"
          ∷ titled_key key
          ∷ codes "**"
          ∷ (if several values then codes " ⚠ DIFFERS" else [])
          ∷ [])
        ∷ map (name_line key) documents

  -- Whether one of the tokens stands among those of the record.
  abbrev pub matches : List Text → PageRecord → Bool
  matches relevant r =
      any (λ t. any (text_eq t) relevant)
        (tokens [] (python.casefold (join (codes " ") (r.key ∷ r.value ∷ r.detail ∷ []))))
