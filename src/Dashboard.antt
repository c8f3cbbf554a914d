-- ===== src/Dashboard.antt =====
-- The counts of the dashboard: server/app/api/routes/dashboard.py. The ten most recent audit
-- events, which are sorted by the database's clock, are left out.
pub mod Counts
use legal_bridge.Prelude.{
  ℕ, ◌+◌, Bool, true, false, Option, none, some, List, [], ◌∷◌, ◌&&◌, ◌||◌, ◌==◌, not, any, filter,
  length, map, if◌then◌else◌,
}
use legal_bridge.Store.Schema.{
  Uuid, CaseStatus, LegalCase, ExtractionStatus, DocumentRecord, RunStatus, AnalysisRun,
  MotionStatus, MotionDraft, Db,
}

pub record DashboardSummary : Type 0 where
  pub total_cases : ℕ
  pub active_cases : ℕ
  pub review_cases : ℕ
  pub draft_cases : ℕ
  pub closed_cases : ℕ
  pub archived_cases : ℕ
  pub total_documents : ℕ
  pub processed_documents : ℕ
  pub ocr_required_documents : ℕ
  pub failed_documents : ℕ
  pub extracted_source_pages : ℕ
  pub completed_analyses : ℕ
  pub motions_awaiting_review : ℕ
  pub approved_motions : ℕ
  pub total_audit_events : ℕ

abbrev pub case_status_eq : CaseStatus → CaseStatus → Bool
case_status_eq CaseStatus.draft CaseStatus.draft = true
case_status_eq CaseStatus.active CaseStatus.active = true
case_status_eq CaseStatus.review CaseStatus.review = true
case_status_eq CaseStatus.closed CaseStatus.closed = true
case_status_eq CaseStatus.archived CaseStatus.archived = true
case_status_eq _ _ = false

abbrev pub extraction_status_eq : ExtractionStatus → ExtractionStatus → Bool
extraction_status_eq ExtractionStatus.metadata_only ExtractionStatus.metadata_only = true
extraction_status_eq ExtractionStatus.uploaded ExtractionStatus.uploaded = true
extraction_status_eq ExtractionStatus.processing ExtractionStatus.processing = true
extraction_status_eq ExtractionStatus.processed ExtractionStatus.processed = true
extraction_status_eq ExtractionStatus.partially_processed ExtractionStatus.partially_processed =
    true
extraction_status_eq ExtractionStatus.ocr_required ExtractionStatus.ocr_required = true
extraction_status_eq ExtractionStatus.failed ExtractionStatus.failed = true
extraction_status_eq _ _ = false

abbrev pub is_completed : RunStatus → Bool
is_completed RunStatus.completed = true
is_completed _ = false

abbrev pub is_submitted : MotionStatus → Bool
is_submitted MotionStatus.submitted_for_review = true
is_submitted _ = false

abbrev pub is_approved_or_exported : MotionStatus → Bool
is_approved_or_exported MotionStatus.approved = true
is_approved_or_exported MotionStatus.exported = true
is_approved_or_exported _ = false

abbrev pub count {ℓ} : {A : Type ℓ} → (A → Bool) → List A → ℕ
count p xs = length (filter p xs)

-- `count(distinct x)`
abbrev pub distinct : List ℕ → List ℕ
distinct [] = []
distinct (x ∷ xs) = let rest = distinct xs in if any (λ y. y == x) xs then rest else x ∷ rest

module _ (organization_id : Uuid) (db : Db) where
  -- `case_counts.get(status, 0)` of the groups by status.
  abbrev pub case_count : CaseStatus → ℕ
  case_count status =
      count (λ c. (c.organization_id == organization_id) && case_status_eq c.status status) db.cases

  abbrev pub document_count : ExtractionStatus → ℕ
  document_count status =
      count
        (λ d.
          (d.organization_id == organization_id) && extraction_status_eq d.extraction_status status)
        db.documents

  -- The sums are those over the groups by status.
  unfoldable pub dashboard_summary : DashboardSummary
  dashboard_summary = record {
    total_cases =
        case_count CaseStatus.draft
        + case_count CaseStatus.active
        + case_count CaseStatus.review
        + case_count CaseStatus.closed
        + case_count CaseStatus.archived;
    active_cases = case_count CaseStatus.active;
    review_cases = case_count CaseStatus.review;
    draft_cases = case_count CaseStatus.draft;
    closed_cases = case_count CaseStatus.closed;
    archived_cases = case_count CaseStatus.archived;
    total_documents =
        document_count ExtractionStatus.metadata_only
        + document_count ExtractionStatus.uploaded
        + document_count ExtractionStatus.processing
        + document_count ExtractionStatus.processed
        + document_count ExtractionStatus.partially_processed
        + document_count ExtractionStatus.ocr_required
        + document_count ExtractionStatus.failed;
    processed_documents = document_count ExtractionStatus.processed;
    ocr_required_documents = document_count ExtractionStatus.ocr_required;
    failed_documents = document_count ExtractionStatus.failed;
    extracted_source_pages = count (λ p. p.organization_id == organization_id) db.document_pages;
    completed_analyses = length (
        distinct (
          map (λ (r : AnalysisRun). r.case_id)
            (filter (λ r. (r.organization_id == organization_id) && is_completed r.status)
              db.analysis_runs)));
    motions_awaiting_review =
        count (λ m. (m.organization_id == organization_id) && is_submitted m.status)
          db.motion_drafts;
    approved_motions =
        count (λ m. (m.organization_id == organization_id) && is_approved_or_exported m.status)
          db.motion_drafts;
    total_audit_events = count (λ e. e.organization_id == organization_id) db.audit_events;
  }
