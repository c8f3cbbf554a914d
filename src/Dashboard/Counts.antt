-- ===== src/Dashboard/Counts.antt =====
-- What the dashboard's counts add up to, and a count that stays at zero.
use legal_bridge.Prelude.{ℕ, ◌+◌, List, [], ◌∷◌, ◌≡◌, ◌≢◌, refl, ◌&&◌, ◌==◌, arith, All}
use legal_bridge.Store.Schema.{
  Uuid, CaseStatus, LegalCase, ExtractionStatus, DocumentRecord, MotionStatus, MotionDraft, Db,
}
use legal_bridge.Config.{Settings}
use legal_bridge.Auth.Principal.{Principal}
use legal_bridge.Motions.Review.{Layout}
use legal_bridge.Motions.Effects.{MotionRequest}
use legal_bridge.Motions.Invariants.{serve, NoneSubmitted, serve-NoneSubmitted}
use legal_bridge.Dashboard.{
  dashboard_summary, count, case_status_eq, extraction_status_eq, is_submitted,
}

module _ (org : Uuid) where
  abbrev with_status : CaseStatus → List LegalCase → ℕ
  with_status s = count (λ c. (c.organization_id == org) && case_status_eq c.status s)

  cases_partition :
      (cs : List LegalCase)
      → with_status CaseStatus.draft cs
          + with_status CaseStatus.active cs
          + with_status CaseStatus.review cs
          + with_status CaseStatus.closed cs
          + with_status CaseStatus.archived cs
        ≡ count (λ c. c.organization_id == org) cs
  cases_partition [] = refl
  cases_partition (c ∷ cs) = ground (arith, cases_partition cs)

  abbrev extracted : ExtractionStatus → List DocumentRecord → ℕ
  extracted s =
      count (λ d. (d.organization_id == org) && extraction_status_eq d.extraction_status s)

  documents_partition :
      (ds : List DocumentRecord)
      → extracted ExtractionStatus.metadata_only ds
          + extracted ExtractionStatus.uploaded ds
          + extracted ExtractionStatus.processing ds
          + extracted ExtractionStatus.processed ds
          + extracted ExtractionStatus.partially_processed ds
          + extracted ExtractionStatus.ocr_required ds
          + extracted ExtractionStatus.failed ds
        ≡ count (λ d. d.organization_id == org) ds
  documents_partition [] = refl
  documents_partition (d ∷ ds) = ground (arith, documents_partition ds)

  none_submitted :
      (ms : List MotionDraft)
      → All (λ m. m.status ≢ MotionStatus.submitted_for_review) ms
      → count (λ m. (m.organization_id == org) && is_submitted m.status) ms ≡ 0
  none_submitted [] h = refl
  none_submitted (m ∷ ms) h = ground (arith, h.0, none_submitted ms h.1)

-- The totals of the dashboard are the numbers of the organisation's cases and documents, each
-- counted once, whatever their status; rows of other organisations do not count.
pub dashboard_totals :
    (org : Uuid) (db : Db)
    → ((dashboard_summary org db).total_cases ≡ count (λ c. c.organization_id == org) db.cases)
      × ((dashboard_summary org db).total_documents
          ≡ count (λ d. d.organization_id == org) db.documents)
unfolding dashboard_summary
dashboard_totals org db = (cases_partition org db.cases, documents_partition org db.documents)

-- However the motion routes are used, the dashboard reports that no motion awaits review, if no
-- motion had the status `submitted_for_review` at the start: a submission sets `review_required`.
pub awaiting_review_stays_zero :
    (settings : Settings) (layout : Layout) (requests : List (Principal × MotionRequest))
    (org : Uuid) (db : Db)
    → NoneSubmitted db
    → (dashboard_summary org (serve settings layout requests db)).motions_awaiting_review ≡ 0
unfolding dashboard_summary
awaiting_review_stays_zero settings layout requests org db h =
    none_submitted org (serve settings layout requests db).motion_drafts
      (serve-NoneSubmitted settings layout requests db h)
