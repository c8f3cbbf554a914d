-- ===== src/Analysis/Drafts.antt =====
-- server/app/services/analysis.py: the motion that a run drafts, with its versions, citation checks and
-- reviews.
use Prim.Native.String.{◌++◌ as str_append}
use legal_bridge.Prelude.{
  ℕ, suc, ◌%◌, String, true, Option, none, some, List, [], ◌∷◌, ◌++◌, drop, length, codes, decimal,
  str_eq, if◌then◌else◌,
}
use legal_bridge.Store.Schema.{
  Uuid, DateTime, Text, LegalCase, LegalAuthority, MotionDraft, MotionStatus, MotionVersion,
  Section, CitationStatus, EthicsStatus, CitationCheckRecord, CheckStatus, AttorneyReview, Decision,
}
use legal_bridge.Motions.Drafting.{render_motion, section}
use legal_bridge.Analysis.Observations.{Source}
use legal_bridge.Analysis.Timeline.{Scope}

-- `sources[n % len(sources)]`, of sources that begin with `source`.
abbrev pub source_at : ℕ → Source → List Source → Source
source_at n source sources = elim (drop (n % suc (length sources)) (source ∷ sources)) [
  | [] ↦ source
  | s ∷ _ ↦ s
]

abbrev pub bracketed : Source → Text
bracketed (page, document) =
    codes "["
    ++ (codes document.original_filename
        ++ (codes " p." ++ (decimal page.page_number ++ codes "]")))

abbrev pub source_text : Source → Text
source_text (page, document) =
    codes document.original_filename ++ (codes ", page " ++ decimal page.page_number)

abbrev pub or_unspecified : Option String → Text
or_unspecified none = codes "not specified"
or_unspecified (some s) = if str_eq s "" then codes "not specified" else codes s

abbrev pub text_section : String → Text → Section
text_section heading body = record { heading = codes heading; body = body }

-- `_motion_sections`, of the first two pages and authorities; one page alone stands for both.
unfoldable pub motion_sections :
    LegalCase → Source → Source → LegalAuthority → LegalAuthority → Text → List Section
motion_sections legal_case source second a b revision_note =
    section "Demonstration notice"
      "Demonstration draft — attorney review required — not filed with any court. Synthetic demonstration data; not legal advice."
    ∷ text_section "Case information" (
        codes legal_case.case_number
        ++ (codes ": "
            ++ (codes legal_case.title
                ++ (codes ". Jurisdiction recorded as "
                    ++ (or_unspecified legal_case.jurisdiction ++ codes ".")))))
    ∷ text_section "Factual background" (
        codes "Potential observations are grounded in "
        ++ (source_text source ++ codes ", and require attorney verification."))
    ∷ text_section "Source-grounded timeline" (
        codes "Chronology begins with "
        ++ (bracketed source
            ++ (codes " and is compared with " ++ (bracketed second ++ codes "."))))
    ∷ section "Identified contradictions"
        "Reported timing, location, sequence, and record descriptions require comparison. These are potential concerns, not legal conclusions."
    ∷ section "Procedural review"
        "Potential procedural gaps require attorney verification against original records."
    ∷ text_section "Synthetic authority discussion" (
        a.citation
        ++ (codes " and "
            ++ (b.citation
                ++ codes " are synthetic demonstration authorities, not official legal sources.")))
    ∷ section "Defence considerations"
        "A possible defence opportunity is to reconcile source differences and document any unresolved handling or chronology issue."
    ∷ section "Requested attorney action"
        "Review every cited source page, correct unsupported language, and decide whether the internal demonstration draft should be approved."
    ∷ text_section "Limitations and review notice" (
        codes
          "No automatic court filing is available. Approval is internal only and is not a court signature. "
        ++ revision_note)
    ∷ []

-- `pages[min(1, len(pages) - 1)]`
abbrev pub second_source : Source → List Source → Source
second_source source [] = source
second_source source (s ∷ _) = s

abbrev pub run_motion : Uuid → Scope → LegalCase → Uuid → MotionDraft
run_motion motion_id scope legal_case user_id = record {
  id = motion_id;
  organization_id = scope.organization_id;
  case_id = scope.case_id;
  analysis_run_id = scope.analysis_run_id;
  title = str_append "Demonstration review motion — " legal_case.case_number;
  motion_type = "source-grounded_demonstration_motion";
  status = MotionStatus.approved;
  current_version = 2;
  created_by_user_id = user_id;
}

abbrev pub run_version : Uuid → Uuid → ℕ → List Section → Uuid → MotionVersion
run_version version_id motion_id version_number sections user_id = record {
  id = version_id;
  motion_draft_id = motion_id;
  version_number = version_number;
  content_json = sections;
  rendered_text = render_motion sections;
  citation_check_status = CitationStatus.passed_synthetic_sources;
  ethics_check_status = EthicsStatus.passed_with_attorney_review;
  created_by_user_id = user_id;
}

abbrev pub source_check : Scope → Uuid → Source → CitationCheckRecord
source_check scope version_id (page, document) = record {
  organization_id = scope.organization_id;
  case_id = scope.case_id;
  motion_version_id = some version_id;
  citation_text = source_text (page, document);
  authority_id = none;
  source_document_id = some document.id;
  source_page_id = some page.id;
  status = CheckStatus.verified_source;
  message = "Stored document-page reference verified.";
}

abbrev pub corpus_check : Scope → Uuid → LegalAuthority → CitationCheckRecord
corpus_check scope version_id authority = record {
  organization_id = scope.organization_id;
  case_id = scope.case_id;
  motion_version_id = some version_id;
  citation_text = authority.citation;
  authority_id = some authority.id;
  source_document_id = none;
  source_page_id = none;
  status = CheckStatus.synthetic_demo;
  message =
      "Synthetic demonstration authority verified in the corpus; it is not an official legal source.";
}

-- The checks of one version: three sources, counted round, and two authorities.
unfoldable pub version_checks :
    Scope → Uuid → Source → List Source → LegalAuthority → LegalAuthority → List CitationCheckRecord
version_checks scope version_id source sources a b =
    source_check scope version_id (source_at 0 source sources)
    ∷ source_check scope version_id (source_at 1 source sources)
    ∷ source_check scope version_id (source_at 2 source sources)
    ∷ corpus_check scope version_id a
    ∷ corpus_check scope version_id b
    ∷ []

abbrev pub run_review : Uuid → Scope → Uuid → Uuid → Decision → String → DateTime → AttorneyReview
run_review review_id scope motion_id user_id decision comments reviewed_at = record {
  id = review_id;
  organization_id = scope.organization_id;
  case_id = scope.case_id;
  motion_draft_id = some motion_id;
  reviewer_user_id = user_id;
  decision = decision;
  comments = comments;
  review_pin_verified = true;
  reviewed_at = some reviewed_at;
}
