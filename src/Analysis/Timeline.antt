-- ===== src/Analysis/Timeline.antt =====
-- server/app/services/analysis.py: the facts and the timeline of a run. A confidence is counted in
-- hundredths.
pub mod Chronology
use legal_bridge.Prelude.{
  ℕ, zero, suc, ◌+◌, ◌*◌, ◌%◌, min, String, Bool, true, false, Option, none, some, List, [], ◌∷◌,
  ◌++◌, ◌==◌, filter, map, take, sort_by, leb, codes, text_eq, text_le, decimal, is_some,
  if◌then◌else◌,
}
use legal_bridge.Store.Schema.{Uuid, Text, CaseFact, TimelineEventRecord}
use legal_bridge.Analysis.Patterns.{Python}
use legal_bridge.Analysis.Observations.{
  SourceObservation, document_date, observation_time, titled, fact_labels, timeline_titles,
}

-- The organisation, the case and the run that a result belongs to.
pub record Scope : Type 0 where
  pub organization_id : Uuid
  pub case_id : Uuid
  pub analysis_run_id : Uuid

-- "…, page 3."
abbrev pub cited_page : SourceObservation → Text
cited_page o = codes o.document.original_filename ++ (codes ", page " ++ decimal o.page.page_number)

abbrev pub spaced : Text → Text
spaced [] = []
spaced (c ∷ cs) = (if c == 95 then 32 else c) ∷ spaced cs

-- `date.max` and `time.max`, which no date that is written with four digits and no time exceeds.
abbrev pub or_max : ℕ → Option ℕ → ℕ
or_max top none = top
or_max top (some n) = n

abbrev pub or_text : Option String → Text → Text
or_text none t = t
or_text (some s) t = codes s

abbrev pub or_untitled : Option String → String
or_untitled none = ""
or_untitled (some s) = s

module _ (python : Python) (scope : Scope) where
  abbrev pub case_fact : ℕ → SourceObservation → CaseFact
  case_fact index o = record {
    organization_id = scope.organization_id;
    case_id = scope.case_id;
    analysis_run_id = scope.analysis_run_id;
    fact_type = o.key;
    fact_text =
        or_text (titled o.key fact_labels) (python.titlecase (spaced o.key))
        ++ (codes ": "
            ++ (o.value
                ++ (codes ". " ++ (o.detail ++ (codes " (" ++ (cited_page o ++ codes ")."))))));
    confidence = min 96 (82 + index % 7 * 2);
    source_document_id = some o.document.id;
    source_page_id = some o.page.id;
    status = "review_ready";
  }

  unfoldable pub case_facts_from : ℕ → List SourceObservation → List CaseFact
  case_facts_from index [] = []
  case_facts_from index (o ∷ os) = case_fact index o ∷ case_facts_from (index + 1) os

  unfoldable pub case_facts : List SourceObservation → List CaseFact
  unfolding case_facts_from
  case_facts os = case_facts_from 0 (take 60 os)

  abbrev pub day : SourceObservation → ℕ
  day o = or_max 3652059 (document_date python o.page)

  abbrev pub minute : SourceObservation → ℕ
  minute o = or_max 1440 (observation_time python o)

  -- The order of the keys (date, time, file name).
  abbrev pub timeline_le : SourceObservation → SourceObservation → Bool
  timeline_le a b =
      if day a == day b
      then (if minute a == minute b
          then text_le (codes a.document.original_filename) (codes b.document.original_filename)
          else leb (minute a) (minute b))
      else leb (day a) (day b)

  abbrev pub on_timeline : SourceObservation → Bool
  on_timeline o = is_some (titled o.key timeline_titles)

  abbrev pub timeline_event : ℕ → SourceObservation → TimelineEventRecord
  timeline_event index o = record {
    organization_id = scope.organization_id;
    case_id = scope.case_id;
    analysis_run_id = scope.analysis_run_id;
    event_date = document_date python o.page;
    event_time = observation_time python o;
    title = or_untitled (titled o.key timeline_titles);
    description = o.detail ++ (codes " Source: " ++ (cited_page o ++ codes "."));
    event_type = o.key;
    confidence = 90;
    source_document_id = some o.document.id;
    source_page_id = some o.page.id;
    sequence_number = index;
  }

  unfoldable pub timeline_from : ℕ → List SourceObservation → List TimelineEventRecord
  timeline_from index [] = []
  timeline_from index (o ∷ os) = timeline_event index o ∷ timeline_from (index + 1) os

  unfoldable pub timeline : List SourceObservation → List TimelineEventRecord
  unfolding timeline_from sort_by
  timeline os = timeline_from 1 (take 30 (sort_by timeline_le (filter on_timeline os)))
