-- ===== src/Motions/Checks.antt =====
-- The Citation Firewall and the Ethics Auditor: `check_motion_citations`, `check_motion_ethics`
-- and `submit_motion_review`.
use legal_bridge.Prelude.{
  String, Bool, true, false, Option, none, some, List, [], ◌∷◌, ◌++◌, ◌&&◌, ◌==◌, not, leb, str_eq,
  find, filter, map, take, sort_by, codes, contains, lower, decimal, text_le,
}
use legal_bridge.Store.Schema.{
  Uuid, Text, DocumentPage, DocumentRecord, LegalAuthority, MotionStatus, MotionDraft,
  CitationStatus, EthicsStatus, CheckStatus, CitationCheckRecord, name, names, Db,
}
use legal_bridge.Store.Session.{
  ApplicationError, Action, ◌>>=◌, ◌>>◌, pure, query, modify, commit, raise_if, add_audit_event,
}
use legal_bridge.Auth.Principal.{Principal}
use legal_bridge.Motions.Drafting.{
  motion_editor, get_motion, latest_version, motion_event, save_motion, save_version,
}

abbrev pub citation_status_value : CitationStatus → String
citation_status_value CitationStatus.pending = "pending"
citation_status_value CitationStatus.failed_missing_sources = "failed_missing_sources"
citation_status_value CitationStatus.passed_synthetic_sources = "passed_synthetic_sources"

-- `status.startswith("passed")`
abbrev pub has_passed : CitationStatus → Bool
has_passed CitationStatus.passed_synthetic_sources = true
has_passed _ = false

-- A page joined with its document.
abbrev pub with_document :
    List DocumentRecord → List DocumentPage → List (DocumentPage × DocumentRecord)
with_document documents [] = []
with_document documents (p ∷ ps) =
    let rest = with_document documents ps in
    elim (find (λ (d : DocumentRecord). d.id == p.document_id) documents) [
      | none ↦ rest
      | some d ↦ (p, d) ∷ rest
    ]

-- The first three stored pages of the case.
unfoldable pub cited_pages : Uuid → Uuid → Db → List (DocumentPage × DocumentRecord)
cited_pages organization_id case_id db = take 3 (
    sort_by (λ a b. leb a.0.created_at b.0.created_at)
      (with_document db.documents (
        filter (λ p. (p.organization_id == organization_id) && (p.case_id == case_id))
          db.document_pages)))

abbrev pub belongs_to : Uuid → Option Uuid → Bool
belongs_to organization_id none = false
belongs_to organization_id (some id) = id == organization_id

-- The first two synthetic authorities.
unfoldable pub cited_authorities : Uuid → Db → List LegalAuthority
cited_authorities organization_id db = take 2 (
    sort_by (λ a b. text_le a.citation b.citation)
      (filter
        (λ a.
          belongs_to organization_id a.organization_id
          && a.is_synthetic
          && str_eq a.source_status "synthetic_demo")
        db.authorities))

module _ (organization_id case_id version_id : Uuid) where
  abbrev pub missing_check : CitationCheckRecord
  missing_check = record {
    organization_id = organization_id;
    case_id = case_id;
    motion_version_id = some version_id;
    citation_text = codes "No stored source page";
    authority_id = none;
    source_document_id = none;
    source_page_id = none;
    status = CheckStatus.missing_source;
    message = "No document page exists; unsupported citations are rejected.";
  }

  abbrev pub page_check : DocumentPage × DocumentRecord → CitationCheckRecord
  page_check (page, document) = record {
    organization_id = organization_id;
    case_id = case_id;
    motion_version_id = some version_id;
    citation_text =
        codes document.original_filename ++ (codes ", page " ++ decimal page.page_number);
    authority_id = none;
    source_document_id = some document.id;
    source_page_id = some page.id;
    status = CheckStatus.verified_source;
    message = "Stored document-page reference verified.";
  }

  abbrev pub authority_check : LegalAuthority → CitationCheckRecord
  authority_check authority = record {
    organization_id = organization_id;
    case_id = case_id;
    motion_version_id = some version_id;
    citation_text = authority.citation;
    authority_id = some authority.id;
    source_document_id = none;
    source_page_id = none;
    status = CheckStatus.synthetic_demo;
    message = "Synthetic demonstration authority — not an official legal source.";
  }

  -- The records of one check, and the status that it gives the version.
  unfoldable pub firewall :
      List (DocumentPage × DocumentRecord)
      → List LegalAuthority
      → CitationStatus × List CitationCheckRecord
  firewall [] authorities = (CitationStatus.failed_missing_sources, missing_check ∷ [])
  firewall (p ∷ pages) authorities = (
    CitationStatus.passed_synthetic_sources,
    map page_check (p ∷ pages) ++ map authority_check authorities,
  )

unfoldable pub check_motion_citations : Uuid → Uuid → Principal → Action MotionDraft
check_motion_citations case_id motion_id sender = do
  principal ← motion_editor sender
  motion ← get_motion principal.organization.id case_id motion_id
  version ← latest_version motion.id
  pages ← query (cited_pages principal.organization.id case_id)
  authorities ← query (cited_authorities principal.organization.id)
  let checked = firewall principal.organization.id case_id version.id pages authorities
  modify (save_version (record version { citation_check_status = checked.0 }))
  modify (λ db. record db { citation_checks = db.citation_checks ++ checked.1 })
  add_audit_event
      (record (motion_event principal case_id "motion_version" version.id "citation_firewall_check"
        "Citation Firewall completed for the current motion version.") {
          metadata_json =
              record { key = "status"; value = name (citation_status_value checked.0) } ∷ [];
        })
  commit
  pure motion

abbrev pub required_phrases : List String
required_phrases = "attorney review" ∷ "not filed" ∷ "synthetic" ∷ []

-- The required phrases that a text lacks. Of the characters that `str.lower` changes only the
-- ASCII letters can complete a phrase: no phrase has a `k`, and none ends in an `i`.
unfoldable pub missing_phrases : Text → List String
missing_phrases text =
    filter (λ phrase. not (contains (codes phrase) (lower text))) required_phrases

abbrev pub ethics_status : List String → EthicsStatus
ethics_status [] = EthicsStatus.passed_with_attorney_review
ethics_status (_ ∷ _) = EthicsStatus.requires_revision

unfoldable pub check_motion_ethics : Uuid → Uuid → Principal → Action MotionDraft
check_motion_ethics case_id motion_id sender = do
  principal ← motion_editor sender
  motion ← get_motion principal.organization.id case_id motion_id
  version ← latest_version motion.id
  let missing = missing_phrases version.rendered_text
  modify (save_version (record version { ethics_check_status = ethics_status missing }))
  add_audit_event
      (record (motion_event principal case_id "motion_version" version.id "ethics_check"
        "Ethics Auditor completed for the current motion version.") {
          metadata_json = record { key = "missing_required_phrases"; value = names missing } ∷ [];
        })
  commit
  pure motion

abbrev pub citation_check_required : ApplicationError
citation_check_required = record {
  status_code = 409;
  code = "citation_check_required";
  message = "Citation Firewall must pass before attorney review.";
}

unfoldable pub submit_motion_review : Uuid → Uuid → Principal → Action MotionDraft
submit_motion_review case_id motion_id sender = do
  principal ← motion_editor sender
  motion ← get_motion principal.organization.id case_id motion_id
  version ← latest_version motion.id
  raise_if (not (has_passed version.citation_check_status)) citation_check_required
  let changed = record motion { status = MotionStatus.review_required }
  modify (save_motion changed)
  add_audit_event (
      motion_event principal case_id "motion_draft" motion.id "motion_submitted_for_review"
        "Motion submitted for internal attorney review.")
  commit
  pure changed
