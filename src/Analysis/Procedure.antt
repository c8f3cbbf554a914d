-- ===== src/Analysis/Procedure.antt =====
-- server/app/services/analysis.py: the procedural candidates and the findings made of them.
use legal_bridge.Prelude.{
  ℕ, ◌+◌, ◌%◌, String, Bool, true, false, Option, none, some, List, [], ◌∷◌, ◌++◌, ◌&&◌, ◌||◌, find,
  length, drop, ltb, codes, text_eq, contains, is_some, str_eq, if◌then◌else◌,
}
use legal_bridge.Store.Schema.{Uuid, LegalAuthority, ProceduralFinding}
use legal_bridge.Analysis.Patterns.{Python}
use legal_bridge.Analysis.Observations.{SourceObservation, observation_time}
use legal_bridge.Analysis.Contradictions.{Contradiction, group}
use legal_bridge.Analysis.Timeline.{Scope, cited_page}

pub record Candidate : Type 0 where
  pub category : String
  pub title : String
  pub description : String
  pub source : SourceObservation

abbrev pub candidate : String → String → String → Option SourceObservation → List Candidate
candidate category title description none = []
candidate category title description (some o) =
    record { category = category; title = title; description = description; source = o } ∷ []

abbrev pub first : List SourceObservation → Option SourceObservation
first [] = none
first (o ∷ _) = some o

-- `contradiction_by_key[key][1]`, if the key is there.
abbrev pub first_source : String → List Contradiction → Option SourceObservation
first_source key [] = none
first_source key (c ∷ cs) =
    if text_eq (codes key) c.key then some c.source_a else first_source key cs

abbrev pub when {ℓ} : {A : Type ℓ} → Bool → Option A → Option A
when true o = o
when false o = none

-- `a < b`, where both are given.
abbrev pub precedes : Option ℕ → Option ℕ → Bool
precedes (some a) (some b) = ltb a b
precedes _ _ = false

module _ (python : Python) (observations : List SourceObservation)
    (found : List Contradiction) where
  abbrev pub grouped : String → List SourceObservation
  grouped key = group (codes key) observations

  abbrev pub first_of : String → Option SourceObservation
  first_of key = first (grouped key)

  abbrev pub is_contradicted : String → Bool
  is_contradicted key = is_some (first_source key found)

  abbrev pub is_incomplete : SourceObservation → Bool
  is_incomplete o =
      contains (codes "incomplete") (python.lowercase o.value)
      || contains (codes "absent") (python.lowercase o.value)

  abbrev pub is_missing : SourceObservation → Bool
  is_missing o =
      text_eq (python.casefold o.value) (codes "missing")
      || text_eq (python.casefold o.value) (codes "not recorded")
      || text_eq (python.casefold o.value) (codes "absent")

  abbrev pub time_of : Option SourceObservation → Option ℕ
  time_of none = none
  time_of (some o) = observation_time python o

  abbrev pub first_time : String → Option ℕ
  first_time key = time_of (first_of key)

  -- `(grouped.get("custody_time") or grouped["arrest_time"])[0]`
  abbrev pub custody_source : Option SourceObservation
  custody_source = elim (first_of "custody_time") [
    | some o ↦ some o
    | none ↦ first_of "arrest_time"
  ]

  unfoldable pub procedural_candidates : List Candidate
  unfolding observation_time contains
  procedural_candidates =
      candidate "seizure" "Seizure seal code is inconsistent across records"
        "The seizure memo and later handling record use different seal codes."
        (first_source "seal_code" found)
      ++ (candidate "custody" "Custody start time differs from the arrest memo"
            "The custody chronology begins before the time recorded in the arrest memo."
            (when
              (is_contradicted "arrest_time"
                || (is_some (first_of "custody_time") && is_some (first_of "arrest_time")))
              custody_source)
          ++ (candidate "electronic_records" "Electronic-record certificate is incomplete"
                "The certificate record does not document all required integrity fields."
                (find is_incomplete (grouped "electronic_certificate"))
              ++ (candidate "electronic_records"
                    "CCTV export time differs from the recorded chronology"
                    "The export log and station chronology record different times."
                    (first_source "electronic_export_time" found)
                  ++ (candidate "identification" "Witness identification sequence requires review"
                        "The identification time should be compared with the authorisation record."
                        (when (is_some (first_of "authorisation_time"))
                          (first_of "identification_time"))
                      ++ (candidate "medical" "Medical examination chronology requires confirmation"
                            "The medical observation and transport arrival times require reconciliation."
                            (when (is_some (first_of "transport_arrival_time"))
                              (first_of "medical_time"))
                          ++ (candidate "seizure" "Search-authorisation timing requires review"
                                "The recorded search start precedes the recorded authorisation time."
                                (when
                                  (precedes (first_time "search_start_time")
                                    (first_time "authorisation_time"))
                                  (first_of "search_start_time"))
                              ++ (candidate "timeline" "Officer-arrival chronology requires review"
                                    "The recorded search start precedes the recorded officer arrival time."
                                    (when
                                      (precedes (first_time "search_start_time")
                                        (first_time "officer_arrival_time"))
                                      (first_of "search_start_time"))
                                  ++ (candidate "identification"
                                        "Single-photo identification requires review"
                                        "A single-photo identification is recorded and requires attorney verification."
                                        (when
                                          (is_some (first_time "single_photo_identification_time"))
                                          (first_of "single_photo_identification_time"))
                                      ++ (candidate "electronic_records" "CCTV checksum mismatch"
                                            "The export and certificate records contain different CCTV checksums."
                                            (first_source "checksum" found)
                                          ++ (candidate "electronic_records"
                                                "Missing software version"
                                                "The digital evidence certificate does not state the export software version."
                                                (find is_missing (grouped "software_version"))
                                              ++ (candidate "electronic_records"
                                                    "Missing clock synchronisation status"
                                                    "The digital evidence certificate does not state the clock synchronisation status."
                                                    (find is_missing
                                                      (grouped "clock_synchronisation"))
                                                  ++ candidate "electronic_records"
                                                      "Missing certificate signing time"
                                                      "The digital evidence certificate does not state the certificate signing time."
                                                      (find is_missing (
                                                        grouped
                                                          "certificate_signing_time")))))))))))))

abbrev pub is_high : String → Bool
is_high category = str_eq category "seizure" || str_eq category "custody"

abbrev pub authority_id_at : ℕ → List LegalAuthority → Option Uuid
authority_id_at n authorities = elim (drop (n % length authorities) authorities) [
  | [] ↦ none
  | a ∷ _ ↦ some a.id
]

abbrev pub procedural_finding : Scope → List LegalAuthority → ℕ → Candidate → ProceduralFinding
procedural_finding scope authorities index c = record {
  organization_id = scope.organization_id;
  case_id = scope.case_id;
  analysis_run_id = scope.analysis_run_id;
  category = c.category;
  title = c.title;
  description = codes c.description ++ (codes " Source: " ++ (cited_page c.source ++ codes "."));
  severity = if is_high c.category then "high" else "medium";
  review_status = "pending";
  defence_opportunity =
      "Compare the referenced record with the related source, obtain any missing entry, and document the reconciled chronology.";
  source_document_id = some c.source.document.id;
  source_page_id = some c.source.page.id;
  authority_id = authority_id_at index authorities;
}

unfoldable pub procedural_findings :
    Scope → List LegalAuthority → ℕ → List Candidate → List ProceduralFinding
procedural_findings scope authorities index [] = []
procedural_findings scope authorities index (c ∷ cs) =
    procedural_finding scope authorities index c
    ∷ procedural_findings scope authorities (index + 1) cs
