-- ===== src/Analysis/Patterns.antt =====
-- The regular expressions of server/app/services/analysis.py, as matchers that backtrack the way
-- Python's do: RECORD_PATTERN, TIME_PATTERN and DOCUMENT_DATE_PATTERN. A matcher takes what is to
-- match behind it. Python's tables of characters and `strptime` on dates are the record `Python`.
pub mod RoundTrip
use legal_bridge.Prelude.{
  ℕ, zero, suc, ◌+◌, ◌-◌, ◌*◌, Bool, true, false, Option, none, some, List, [], ◌∷◌, ◌++◌, ◌&&◌,
  ◌||◌, not, length, leb, ◌==◌, codes, lower_char, if◌then◌else◌,
}
use legal_bridge.Store.Schema.{Text}
use legal_bridge.Extraction.Texts.{is_space}

pub record Python : Type 0 where
  pub casefold : Text → Text
  pub lowercase : Text → Text
  pub titlecase : Text → Text
  -- The value of a character that `\d` matches.
  pub digit : ℕ → Option ℕ
  -- The characters that `\w` matches.
  pub is_word : ℕ → Bool
  -- `datetime.strptime(text, "%d %B %Y").date()`, as the number of its day; none for ValueError.
  pub parse_date : Text → Option ℕ

abbrev pub or_option {ℓ} : {A : Type ℓ} → Option A → Option A → Option A
or_option (some a) o = some a
or_option none o = o

module _ {A : Type 0} where
  -- `\s*`, the longest run first.
  unfoldable pub spaces : (Text → Option A) → Text → Option A
  spaces k [] = k []
  spaces k (c ∷ cs) =
      let longer = spaces k cs in
      let here = k (c ∷ cs) in if is_space c then or_option longer here else here

  -- `[...]*` behind what has been collected, the longest run first.
  unfoldable pub many : (ℕ → Bool) → (Text → Text → Option A) → Text → Text → Option A
  many p k seen [] = k seen []
  many p k seen (c ∷ cs) =
      let longer = many p k (seen ++ c ∷ []) cs in
      let here = k seen (c ∷ cs) in if p c then or_option longer here else here

  -- `[...]+`
  unfoldable pub some_of : (ℕ → Bool) → (Text → Text → Option A) → Text → Option A
  unfolding many
  some_of p k [] = none
  some_of p k (c ∷ cs) = let found = many p k (c ∷ []) cs in if p c then found else none

  -- A literal, ASCII letters in either case. The literals used have none that folds further.
  unfoldable pub literal : Text → (Text → Option A) → Text → Option A
  literal [] k cs = k cs
  literal (x ∷ xs) k [] = none
  literal (x ∷ xs) k (c ∷ cs) =
      let rest = literal xs k cs in if lower_char c == x then rest else none

-- The groups of a record, and the text behind it.
abbrev pub Fields : Type 0
Fields = record { key : Text; value : Text; detail : Text }

abbrev pub in_field : ℕ → Bool
in_field c = not ((c == 124) || (c == 13) || (c == 10))

abbrev pub in_line : ℕ → Bool
in_line c = not ((c == 13) || (c == 10))

abbrev pub detail_of : Text → Text → Text → Text → Option (Fields × Text)
detail_of key value detail rest = some (record { key = key; value = value; detail = detail }, rest)

-- What stands behind the key, and behind the value.
abbrev pub behind_value : Text → Text → Text → Option (Fields × Text)
behind_value key value = literal (codes "|") (spaces (some_of in_line (detail_of key value)))

abbrev pub behind_key : Text → Text → Option (Fields × Text)
behind_key key = literal (codes "|") (spaces (some_of in_field (behind_value key)))

unfoldable pub record_at : Text → Option (Fields × Text)
unfolding literal spaces some_of
record_at = literal (codes "record:") (spaces (some_of in_field behind_key))

-- `RECORD_PATTERN.finditer`: a record starts at the start of a line, and the search goes on behind
-- it; `skip` counts the characters of the last match that are still ahead.
unfoldable pub find_records : Bool → ℕ → Text → List Fields
unfolding record_at
find_records line_start skip [] = []
find_records line_start (suc skip) (c ∷ cs) = find_records (c == 10) skip cs
find_records line_start zero (c ∷ cs) = elim (if line_start then record_at (c ∷ cs) else none) [
  | none ↦ find_records (c == 10) 0 cs
  | some (fields, rest) ↦ fields ∷ find_records (c == 10) (length cs - length rest) cs
]

module _ (python : Python) where
  abbrev pub is_digit : ℕ → Bool
  is_digit c = elim (python.digit c) [ none ↦ false | some _ ↦ true ]

  abbrev pub digit_value : ℕ → ℕ
  digit_value c = elim (python.digit c) [ none ↦ 0 | some d ↦ d ]

  abbrev pub ends_word : Text → Bool
  ends_word [] = true
  ends_word (c ∷ _) = not (python.is_word c)

  -- `:[0-5]\d\b`, the minutes of the day.
  abbrev pub minutes : ℕ → Text → Option ℕ
  minutes hour (c ∷ d ∷ e ∷ rest) =
      if (c == 58) && leb 48 d && leb d 53 && is_digit e && ends_word rest
      then some (hour * 60 + ((d - 48) * 10 + digit_value e))
      else none
  minutes hour _ = none

  -- `[01]?\d`, with the optional digit first, or `2[0-3]`.
  abbrev pub time_at : Text → Option ℕ
  time_at [] = none
  time_at (c ∷ []) = none
  time_at (c ∷ d ∷ rest) =
      or_option
        (if ((c == 48) || (c == 49)) && is_digit d
          then minutes ((c - 48) * 10 + digit_value d) rest
          else none)
        (or_option (if is_digit c then minutes (digit_value c) (d ∷ rest) else none)
          (if (c == 50) && leb 48 d && leb d 51 then minutes (20 + (d - 48)) rest else none))

  abbrev pub bool_ne : Bool → Bool → Bool
  bool_ne true b = not b
  bool_ne false b = b

  -- `TIME_PATTERN.search` behind a character that is a word character or is not.
  unfoldable pub find_time : Bool → Text → Option ℕ
  find_time after_word [] = none
  find_time after_word (c ∷ cs) =
      let later = find_time (python.is_word c) cs in
      let here = time_at (c ∷ cs) in
      if bool_ne after_word (python.is_word c) then or_option here later else later

  -- Four characters beside the letters match `[A-Za-z]` where case is ignored: U+0130 and U+0131, of
  -- the case of i, U+017F, of s, and U+212A, of k.
  abbrev pub is_letter : ℕ → Bool
  is_letter c =
      (leb 65 c && leb c 90)
      || (leb 97 c && leb c 122)
      || (c == 304)
      || (c == 305)
      || (c == 383)
      || (c == 8490)

  -- `\d{4}`
  abbrev pub year : (Text → Option Text) → Text → Text → Option Text
  year k seen (a ∷ b ∷ c ∷ d ∷ rest) =
      if is_digit a && is_digit b && is_digit c && is_digit d
      then k (seen ++ (a ∷ b ∷ c ∷ d ∷ []))
      else none
  year k seen _ = none

  -- `\s+[A-Za-z]+\s+\d{4}` behind the day.
  unfoldable pub month_and_year : Text → Text → Option Text
  unfolding some_of
  month_and_year day = some_of is_space λ gap.
      some_of is_letter
        λ month. some_of is_space λ gap'. year some (day ++ (gap ++ (month ++ gap')))

  -- `\d{1,2}`, two digits first.
  unfoldable pub date_text : Text → Option Text
  unfolding month_and_year
  date_text [] = none
  date_text (c ∷ []) = none
  date_text (c ∷ d ∷ rest) =
      or_option (if is_digit c && is_digit d then month_and_year (c ∷ d ∷ []) rest else none)
        (if is_digit c then month_and_year (c ∷ []) (d ∷ rest) else none)

  -- `DOCUMENT_DATE_PATTERN.search`
  unfoldable pub find_date : Bool → Text → Option Text
  unfolding literal spaces date_text
  find_date line_start [] = none
  find_date line_start (c ∷ cs) =
      let later = find_date (c == 10) cs in
      let here = literal (codes "document date:") (spaces date_text) (c ∷ cs) in
      if line_start then or_option here later else later

  abbrev pub day_of : Option Text → Option ℕ
  day_of none = none
  day_of (some text) = python.parse_date text
