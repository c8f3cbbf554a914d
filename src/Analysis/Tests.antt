-- ===== src/Analysis/Tests.antt =====
-- The theorems of the analysis at a case with one document of two pages.
use legal_bridge.Prelude.{
  not, ℕ, ◌+◌, ◌-◌, ◌≤◌, Bool, true, false, none, some, List, [], ◌∷◌, ◌++◌, ◌≡◌, refl, ap, arith,
  any, all, All, map, length, flatten, leb, ltb, ◌||◌, ◌&&◌, ◌==◌, lower, codes, text_eq, inl, inr,
  if◌then◌else◌, sort_by,
}
use mathlib.Core.Bool.{false≢true}
use legal_bridge.Store.Schema.{
  Text, DocumentRecord, DocumentPage, ExtractionStatus, RunStatus, AgentRun, AnalysisRun,
  LegalAuthority, Db,
}
use legal_bridge.Store.Session.{ok, err, request}
use legal_bridge.Config.{Provider}
use legal_bridge.Auth.Principal.{Principal}
use legal_bridge.Auth.Tests.{settings, admin_alice, bob, firm}
use legal_bridge.Cases.Tests.{with_cases, theft}
use legal_bridge.Extraction.Texts.{is_space}
use legal_bridge.Processing.{unexpected_error}
use legal_bridge.Processing.Tests.{statement, old_page}
use legal_bridge.Motions.Checks.{missing_phrases, ethics_status, firewall, cited_pages}
use legal_bridge.Motions.Review.{export, Layout, pdf}
use legal_bridge.Analysis.Patterns.{Python, Fields, find_records, in_field, in_line}
use legal_bridge.Analysis.Patterns.RoundTrip.{
  Clean, CleanFields, record_line, find_records-record_line,
}
use legal_bridge.Analysis.Observations.{SourceObservation, load_sources, source_observations}
use legal_bridge.Analysis.Contradictions.{find_contradictions}
use legal_bridge.Analysis.Contradictions.Complete.{
  IsSound, find_contradictions-IsSound, find_contradictions_complete, of_key,
}
use legal_bridge.Analysis.Timeline.{timeline}
use legal_bridge.Analysis.Timeline.Chronology.{Chronological, timeline-Chronological}
use legal_bridge.Analysis.Authorities.{
  Scores, new_authority, authority_topics, ensure_synthetic_authorities,
}
use legal_bridge.Analysis.Authorities.Corpus.{Covers, authorities_seeded_once}
use legal_bridge.Analysis.Rows.{Call}
use legal_bridge.Analysis.Entries.{future_ai_unavailable}
use legal_bridge.Analysis.Run.{run_case_analysis, drafted_version}
use legal_bridge.Analysis.Routes.{Clock, call_of, create_analysis_run}
use legal_bridge.Analysis.Routes.Approval.{analysis_approves_itself}
use legal_bridge.Analysis.Routes.Statuses.{run_statuses_agree}
use legal_bridge.Analysis.Routes.Failure.{HasFailed, future_provider_fails}

-- The tables of the ASCII characters; no date is read.
abbrev pub python : Python
python = record {
  casefold = lower;
  lowercase = lower;
  titlecase = λ t. t;
  digit = λ c. if leb 48 c && leb c 57 then some (c - 48) else none;
  is_word =
      λ c. (leb 48 c && leb c 57) || (leb 65 c && leb c 90) || (leb 97 c && leb c 122) || (c == 95);
  parse_date = λ t. none;
}

abbrev scores : Scores
scores = record { higher = λ query a b. ltb (length b) (length a) }

abbrev principle : LegalAuthority
principle = new_authority python 10 130 1 "Source Traceability"

abbrev seal : Fields
seal = record { key = codes "Seal code"; value = codes "A1"; detail = codes "sealed 10:30" }

abbrev arrest : Fields
arrest = record { key = codes "Arrest time"; value = codes "at 09:15"; detail = codes "memo" }

all_pass : (p : ℕ → Bool) (xs : Text) → all p xs ≡ true → All (λ d. p d ≡ true) xs
all_pass p [] h = tt
all_pass p (x ∷ xs) h = (ground arith, all_pass p xs (ground arith))

abbrev is_clean : (ℕ → Bool) → Text → Bool
is_clean p [] = false
is_clean p (c ∷ cs) = not (is_space c) && all p (c ∷ cs)

both : (a b : Bool) → not a && b ≡ true → (a ≡ false) × (b ≡ true)
both a b h = (ground arith, ground arith)

clean : (p : ℕ → Bool) (t : Text) → is_clean p t ≡ true → Clean p t
clean p [] h = absurd (false≢true h)
clean p (c ∷ cs) h = let (e, k) = both (is_space c) (all p (c ∷ cs)) h in (e, all_pass p (c ∷ cs) k)

clean_fields :
    (f : Fields)
    → is_clean in_field f.key ≡ true
    → is_clean in_field f.value ≡ true
    → is_clean in_line f.detail ≡ true
    → CleanFields f
clean_fields f h k l = (clean in_field f.key h, clean in_field f.value k, clean in_line f.detail l)

find_records-record_line_example :
    find_records true 0 (flatten (map record_line (seal ∷ arrest ∷ []))) ≡ seal ∷ arrest ∷ []
find_records-record_line_example =
    find_records-record_line (seal ∷ arrest ∷ [])
      (clean_fields seal refl refl refl, (clean_fields arrest refl refl refl, tt))

abbrev pub memo : DocumentRecord
memo = record statement {
  original_filename = "memo.txt";
  extraction_status = ExtractionStatus.processed;
  page_count = 2;
}

abbrev pub first_page : DocumentPage
first_page = record old_page {
  extracted_text =
      codes "RECORD: Seal code| A1| sealed 10:30\nRECORD: Arrest time| at 09:15| memo\n";
}

abbrev pub second_page : DocumentPage
second_page = record old_page {
  id = 46;
  page_number = 2;
  extracted_text = codes "Page 2\nrecord: seal code | B2 | stored\n";
}

abbrev pub case_file : Db
case_file = record with_cases {
  documents = memo ∷ [];
  document_pages = second_page ∷ first_page ∷ [];
}

loads : load_sources 10 50 case_file ≡ (first_page, memo) ∷ (second_page, memo) ∷ []
unfolding load_sources sort_by
loads = refl

abbrev observed : List SourceObservation
observed = source_observations python ((first_page, memo) ∷ (second_page, memo) ∷ [])

find_contradictions-IsSound_example :
    All (IsSound python observed) (find_contradictions python observed)
find_contradictions-IsSound_example = find_contradictions-IsSound python observed

abbrev seal_of : Text → DocumentPage → SourceObservation
seal_of value page = record {
  key = codes "seal_code";
  value = value;
  detail = [];
  page = page;
  document = memo;
  excerpt = [];
}

find_contradictions_complete_example :
    any (of_key python (codes "seal_code")) (
      find_contradictions python
        (seal_of (codes "A1") first_page ∷ seal_of (codes "B2") second_page ∷ []))
    ≡ true
unfolding lower
find_contradictions_complete_example =
    find_contradictions_complete python
      (seal_of (codes "A1") first_page ∷ seal_of (codes "B2") second_page ∷ [])
      (seal_of (codes "A1") first_page) (seal_of (codes "B2") second_page) (inl refl)
      (inr (inl refl)) refl (λ e. false≢true (ap (λ t. text_eq t (codes "b2")) e)) refl

timeline-Chronological_example :
    let events =
      timeline python
        (record { organization_id = 10; case_id = 50; analysis_run_id = 100 })
        observed in
    Chronological 1 events × (length events ≤ 30)
timeline-Chronological_example =
    timeline-Chronological python
      (record { organization_id = 10; case_id = 50; analysis_run_id = 100 }) observed

abbrev clock : Clock
clock = record { now = 1000; completed_at = 1002; fresh = λ n. 100 + n }

authorities_seeded_once_example :
    let seeded = ensure_synthetic_authorities python 10 (λ n. 120 + n) case_file in
    Covers 1 authority_topics seeded.0
    × ((ensure_synthetic_authorities python 10 (λ n. 220 + n) seeded.1).1 ≡ seeded.1)
authorities_seeded_once_example =
    authorities_seeded_once python 10 (λ n. 120 + n) (λ n. 220 + n) case_file

abbrev after_run : Db
after_run =
    (request (create_analysis_run python scores settings clock 50 none admin_alice) case_file).1

abbrev layout : Layout
layout = record { pdf_bytes = λ title text. codes title; docx_bytes = λ title text. text }

abbrev attorney_bob : Principal
attorney_bob = record { user = bob; organization = firm }

analysis_approves_itself_example :
    (content : List ℕ) × ((request (export layout 50 114 pdf attorney_bob) after_run).0
      ≡ ok content)
analysis_approves_itself_example =
    analysis_approves_itself python scores settings layout clock 50 none pdf admin_alice
      attorney_bob case_file theft (first_page, memo) ((second_page, memo) ∷ []) refl refl refl
      loads refl refl refl

abbrev call : Call
call = call_of clock 50 admin_alice

run_statuses_agree_example :
    let v =
      drafted_version python scores call theft
        (first_page, memo)
        ((second_page, memo) ∷ [])
        principle
        principle
        2 in
    (v.ethics_check_status ≡ ethics_status (missing_phrases v.rendered_text))
    × (v.citation_check_status ≡ (firewall 10 50 v.id (cited_pages 10 50 case_file) []).0)
run_statuses_agree_example =
    run_statuses_agree python scores call theft (first_page, memo) ((second_page, memo) ∷ [])
      principle principle 2 [] case_file loads

future_provider_fails_example :
    (run : AnalysisRun) × (db' : Db) × (added : List AgentRun) × (request
        (run_case_analysis python scores call Provider.future_ai)
        case_file
      ≡ (err unexpected_error, db'))
    × (db'.analysis_runs ≡ case_file.analysis_runs ++ run ∷ [])
    × (run.status ≡ RunStatus.failed)
    × (run.failure_message ≡ some future_ai_unavailable)
    × (db'.agent_runs ≡ case_file.agent_runs ++ added)
    × (length added ≡ 13)
    × All (HasFailed future_ai_unavailable) added
    × (db'.case_facts ≡ case_file.case_facts)
    × (db'.contradictions ≡ case_file.contradictions)
    × (db'.motion_drafts ≡ case_file.motion_drafts)
    × (db'.motion_versions ≡ case_file.motion_versions)
    × (db'.citation_checks ≡ case_file.citation_checks)
    × (db'.attorney_reviews ≡ case_file.attorney_reviews)
    × (db'.audit_events ≡ case_file.audit_events)
future_provider_fails_example =
    future_provider_fails python scores call case_file theft (first_page, memo)
      ((second_page, memo) ∷ []) refl loads
