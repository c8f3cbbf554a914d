-- ===== src/Analysis/Authorities.antt =====
-- server/app/services/analysis.py: the synthetic authorities and the research results. The chunks of
-- an authority, whose rows hold vectors of floating-point numbers that nothing reads, are left out;
-- which of two texts has the higher score for a query is a parameter. The server writes no authority
-- whose `source_status` is another, so that the unique index on the citation never fails.
pub mod Corpus
use legal_bridge.Prelude.{
  ℕ, zero, suc, ◌+◌, ◌-◌, ◌/◌, ◌%◌, min, String, Bool, true, false, Option, none, some, List, [],
  ◌∷◌, ◌++◌, ◌&&◌, ◌==◌, any, filter, map, take, sort_by, str_eq, codes, text_eq, text_le, decimal,
  join, if◌then◌else◌,
}
use legal_bridge.Store.Schema.{Uuid, Text, CalendarDate, LegalAuthority, ResearchResult, Db}
use legal_bridge.Motions.Checks.{belongs_to}
use legal_bridge.Analysis.Patterns.{Python}
use legal_bridge.Analysis.Timeline.{Scope}

abbrev pub authority_topics : List String
authority_topics =
    "Source Traceability" ∷ "Timeline Reconciliation" ∷ "Custody Documentation"
    ∷ "Witness Consistency" ∷ "Electronic Record Handling" ∷ "Identification Review"
    ∷ "Medical Observation Context" ∷ "Arrest Timing Review" ∷ "Seizure Record Review"
    ∷ "Document Completeness" ∷ "Disclosure Tracking" ∷ "Interview Record Reliability"
    ∷ "Location Consistency" ∷ "Object Description Consistency" ∷ "Chain of Handling"
    ∷ "Attorney Verification Duty" ∷ "Unsupported Claim Prevention" ∷ "Confidentiality Safeguards"
    ∷ "Bias Risk Review" ∷ "Demonstration Draft Controls" ∷ []

-- `f"LB-SYN-AUTH-{index:03d}"`, for an index below 1,000.
abbrev pub authority_citation : ℕ → Text
authority_citation index =
    codes "LB-SYN-AUTH-" ++ ((48 + index / 100) ∷ (48 + index / 10 % 10) ∷ (48 + index % 10) ∷ [])

abbrev pub notice : Text
notice =
    codes
      "Synthetic demonstration authority. This fictional training material is not official law, not legal advice, and requires attorney verification."

abbrev pub is_synthetic_demo : Uuid → LegalAuthority → Bool
is_synthetic_demo organization_id a =
    belongs_to organization_id a.organization_id && str_eq a.source_status "synthetic_demo"

abbrev pub citation_le : LegalAuthority → LegalAuthority → Bool
citation_le a b = text_le a.citation b.citation

abbrev pub cites_as : Text → LegalAuthority → Bool
cites_as citation a = text_eq citation a.citation

-- What `split(": ", 1)[-1]` leaves: the text behind the first ": ", or all of it.
abbrev pub behind_colon : Text → Option Text
behind_colon [] = none
behind_colon (c ∷ []) = none
behind_colon (c ∷ d ∷ rest) =
    let later = behind_colon (d ∷ rest) in if (c == 58) && (d == 32) then some rest else later

abbrev pub or_whole : Text → Option Text → Text
or_whole t none = t
or_whole t (some u) = u

module _ (python : Python) (organization_id : Uuid) where
  abbrev pub new_authority : Uuid → ℕ → String → LegalAuthority
  new_authority new_id index topic = record {
    id = new_id;
    organization_id = some organization_id;
    authority_type = "synthetic_demonstration_principle";
    title = codes "Demonstration Principle " ++ (decimal index ++ (codes ": " ++ codes topic));
    citation = authority_citation index;
    jurisdiction = "Synthetic demonstration jurisdiction";
    court = "LegalBridge Demonstration Review Panel";
    decision_date = some (record { year = 2025; month = (index - 1) % 12 + 1; day = min index 28 });
    summary =
        notice
        ++ (codes " It illustrates review considerations for "
            ++ (python.lowercase (codes topic) ++ codes "."));
    full_text =
        notice
        ++ (codes "\n\nTopic: "
            ++ (codes topic
                ++ codes
                    ".\n\nA reviewer should compare the proposition with stored case sources, record limitations, and avoid unsupported conclusions. No generated text may be treated as a source of law or filed automatically."));
    source_url = none;
    source_status = "synthetic_demo";
    is_synthetic = true;
  }

  -- The authorities that are not there yet, for the topics from this index on.
  unfoldable pub missing_authorities :
      (ℕ → Uuid) → List LegalAuthority → ℕ → List String → List LegalAuthority
  missing_authorities fresh existing index [] = []
  missing_authorities fresh existing index (topic ∷ topics) =
      let rest = missing_authorities fresh existing (index + 1) topics in
      if any (cites_as (authority_citation index)) existing
      then rest
      else new_authority (fresh index) index topic ∷ rest

  abbrev pub existing_authorities : Db → List LegalAuthority
  existing_authorities db =
      sort_by citation_le (filter (is_synthetic_demo organization_id) db.authorities)

  -- `ensure_synthetic_authorities`: the authorities returned, and the rows behind it.
  unfoldable pub ensure_synthetic_authorities : (ℕ → Uuid) → Db → List LegalAuthority × Db
  unfolding missing_authorities sort_by
  ensure_synthetic_authorities fresh db =
      let existing = existing_authorities db in
      let missing = missing_authorities fresh existing 1 authority_topics in
      (
        sort_by citation_le (existing ++ missing),
        record db { authorities = db.authorities ++ missing },
      )

-- Whether the combined score of a query with the first text is above that with the second.
pub record Scores : Type 0 where
  pub higher : Text → Text → Text → Bool

module _ (python : Python) (scores : Scores) (scope : Scope) where
  -- The order of the keys (-combined, citation).
  abbrev pub ranked_le : Text → LegalAuthority → LegalAuthority → Bool
  ranked_le query a b =
      if scores.higher query a.full_text b.full_text
      then true
      else if scores.higher query b.full_text a.full_text
      then false
      else citation_le a b

  abbrev pub research_result : ℕ → LegalAuthority → ResearchResult
  research_result rank a = record {
    organization_id = scope.organization_id;
    case_id = scope.case_id;
    analysis_run_id = scope.analysis_run_id;
    authority_id = a.id;
    rank = rank;
    applicability_summary =
        codes "Training reference relevant to "
        ++ (python.lowercase (or_whole a.title (behind_colon a.title))
            ++ codes " when reviewing the extracted chronology and source links.");
    limitation_summary =
        "Synthetic demonstration authority — not an official legal source and not binding.";
    source_status = "training_reference";
  }

  unfoldable pub research_from : ℕ → List LegalAuthority → List ResearchResult
  research_from rank [] = []
  research_from rank (a ∷ as') = research_result rank a ∷ research_from (rank + 1) as'

  unfoldable pub research : List Text → List LegalAuthority → List ResearchResult
  unfolding research_from sort_by join
  research excerpts authorities =
      research_from 1
        (take 10 (sort_by (ranked_le (join (codes " ") (take 3 excerpts))) authorities))
