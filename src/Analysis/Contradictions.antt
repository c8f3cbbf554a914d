-- ===== src/Analysis/Contradictions.antt =====
-- server/app/services/analysis.py: the grouping of the observations by key and the contradictions.
pub mod Members
pub mod Complete
use legal_bridge.Prelude.{
  ℕ, String, Bool, true, false, Option, none, some, List, [], ◌∷◌, ◌++◌, any, filter, map, text_eq,
  is_some, if◌then◌else◌,
}
use legal_bridge.Store.Schema.{Text}
use legal_bridge.Analysis.Patterns.{Python}
use legal_bridge.Analysis.Observations.{SourceObservation, titled, contradiction_titles}

abbrev pub has_key : Text → SourceObservation → Bool
has_key key o = text_eq o.key key

-- `grouped.get(key, [])`: the observations under a key, in order.
abbrev pub group : Text → List SourceObservation → List SourceObservation
group key = filter (has_key key)

-- The keys of `grouped`, each where it first came up.
unfoldable pub keys : List Text → List SourceObservation → List Text
keys seen [] = []
keys seen (o ∷ os) =
    let old = keys seen os in
    let new = o.key ∷ keys (o.key ∷ seen) os in if any (text_eq o.key) seen then old else new

pub record Contradiction : Type 0 where
  pub key : Text
  pub title : String
  pub source_a : SourceObservation
  pub source_b : SourceObservation

module _ (python : Python) where
  -- `distinct`: the first observation of each value, without regard to case.
  unfoldable pub distinct_values : List Text → List SourceObservation → List SourceObservation
  distinct_values seen [] = []
  distinct_values seen (o ∷ os) =
      let old = distinct_values seen os in
      let new = o ∷ distinct_values (python.casefold o.value ∷ seen) os in
      if any (text_eq (python.casefold o.value)) seen then old else new

  abbrev pub between : Text → Option String → List SourceObservation → List Contradiction
  between key (some title) (a ∷ b ∷ _) =
      record { key = key; title = title; source_a = a; source_b = b } ∷ []
  between key _ _ = []

  unfoldable pub contradictions_of : List SourceObservation → List Text → List Contradiction
  unfolding distinct_values
  contradictions_of os [] = []
  contradictions_of os (key ∷ rest) =
      between key (titled key contradiction_titles) (distinct_values [] (group key os))
      ++ contradictions_of os rest

  unfoldable pub find_contradictions : List SourceObservation → List Contradiction
  unfolding keys contradictions_of
  find_contradictions os = contradictions_of os (keys [] os)
