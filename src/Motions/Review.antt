-- ===== src/Motions/Review.antt =====
-- The attorney review and the export: `review_motion` and `_export`.
use legal_bridge.Prelude.{
  ℕ, String, Bool, true, false, Option, none, some, List, [], ◌∷◌, ◌++◌, ◌&&◌, ◌||◌, ◌==◌, not, any,
  str_eq,
}
use legal_bridge.Store.Schema.{
  Uuid, DateTime, Text, MotionStatus, MotionDraft, Decision, AttorneyReview, name, number,
}
use legal_bridge.Store.Session.{
  ApplicationError, Action, ◌>>=◌, ◌>>◌, pure, query, modify, commit, raise_if, add_audit_event,
}
use legal_bridge.Config.{Settings}
use legal_bridge.Auth.Principal.{Principal}
use legal_bridge.Motions.Drafting.{
  motion_reviewer, get_motion, latest_version, motion_event, save_motion,
}

pub record MotionReviewCreate : Type 0 where
  pub decision : Decision
  pub comments : String
  pub review_pin : String

abbrev pub invalid_review_pin : ApplicationError
invalid_review_pin = record {
  status_code = 403;
  code = "invalid_review_pin";
  message = "The review PIN was not accepted.";
}

abbrev pub internal_approval_required : ApplicationError
internal_approval_required = record {
  status_code = 409;
  code = "internal_approval_required";
  message = "Internal attorney approval is required before export.";
}

-- `motion.status = payload.decision`
abbrev pub decided : Decision → MotionStatus
decided Decision.changes_requested = MotionStatus.changes_requested
decided Decision.approved = MotionStatus.approved
decided Decision.rejected = MotionStatus.rejected

abbrev pub decision_value : Decision → String
decision_value Decision.changes_requested = "changes_requested"
decision_value Decision.approved = "approved"
decision_value Decision.rejected = "rejected"

-- `review_id` is fresh.
unfoldable pub review_motion :
    Settings → DateTime → Uuid → Uuid → Uuid → MotionReviewCreate → Principal → Action MotionDraft
review_motion settings now review_id case_id motion_id payload sender = do
  principal ← motion_reviewer sender
  motion ← get_motion principal.organization.id case_id motion_id
  raise_if (not (str_eq payload.review_pin settings.review_pin)) invalid_review_pin
  let review : AttorneyReview = record {
    id = review_id;
    organization_id = principal.organization.id;
    case_id = case_id;
    motion_draft_id = some motion.id;
    reviewer_user_id = principal.user.id;
    decision = payload.decision;
    comments = payload.comments;
    review_pin_verified = true;
    reviewed_at = some now;
  }
  modify (λ db. record db { attorney_reviews = db.attorney_reviews ++ review ∷ [] })
  let changed = record motion { status = decided payload.decision }
  modify (save_motion changed)
  add_audit_event
      (record (motion_event principal case_id "attorney_review" review.id "attorney_review"
        "Internal demonstration review recorded — not a court signature and not a court filing.") {
          metadata_json =
              record { key = "decision"; value = name (decision_value payload.decision) } ∷ [];
        })
  commit
  pure changed

abbrev pub is_approved : Decision → Bool
is_approved Decision.approved = true
is_approved _ = false

abbrev pub reviews_motion : Uuid → Option Uuid → Bool
reviews_motion motion_id none = false
reviews_motion motion_id (some id) = id == motion_id

-- An approval of this motion under the review PIN.
abbrev pub is_approval : Uuid → Uuid → Uuid → AttorneyReview → Bool
is_approval organization_id case_id motion_id r =
    reviews_motion motion_id r.motion_draft_id
    && (r.organization_id == organization_id)
    && (r.case_id == case_id)
    && is_approved r.decision
    && r.review_pin_verified

abbrev pub may_export : MotionStatus → Bool
may_export MotionStatus.approved = true
may_export MotionStatus.exported = true
may_export _ = false

pub data Format : Type 0 where
  pdf docx : Format

abbrev pub format_value : Format → String
format_value pdf = "pdf"
format_value docx = "docx"

abbrev pub export_message : Format → String
export_message pdf = "Internally approved demonstration motion exported as PDF."
export_message docx = "Internally approved demonstration motion exported as DOCX."

-- `pdf_bytes` and `docx_bytes` lay a title and a text out, by PyMuPDF and python-docx.
pub record Layout : Type 0 where
  pub pdf_bytes : String → Text → List ℕ
  pub docx_bytes : String → Text → List ℕ

abbrev pub lay_out : Layout → Format → String → Text → List ℕ
lay_out layout pdf = layout.pdf_bytes
lay_out layout docx = layout.docx_bytes

unfoldable pub export : Layout → Uuid → Uuid → Format → Principal → Action (List ℕ)
export layout case_id motion_id export_format sender = do
  principal ← motion_reviewer sender
  motion ← get_motion principal.organization.id case_id motion_id
  version ← latest_version motion.id
  approved_review ←
      query
        (λ db. any (is_approval principal.organization.id case_id motion.id) db.attorney_reviews)
  raise_if (not (may_export motion.status) || not approved_review) internal_approval_required
  let content = lay_out layout export_format motion.title version.rendered_text
  modify (save_motion (record motion { status = MotionStatus.exported }))
  add_audit_event
      (record (motion_event principal case_id "motion_draft" motion.id "motion_export"
        (export_message export_format)) {
          metadata_json =
              record { key = "format"; value = name (format_value export_format) }
              ∷ record { key = "version"; value = number version.version_number }
              ∷ [];
        })
  commit
  pure content
