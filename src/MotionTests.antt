-- ===== src/MotionTests.antt =====
-- The theorems of the motion routes at a small case file.
use legal_bridge.Prelude.{
  ◌≡◌, ◌≢◌, refl, ◌⊎◌, true, none, some, List, [], ◌∷◌, ◌++◌, any, find, map, codes,
}
use legal_bridge.Store.Schema.{
  MotionStatus, MotionDraft, MotionVersion, CitationStatus, EthicsStatus, Decision, AuditEvent, Db,
}
use legal_bridge.Store.Session.{ok, err, request}
use legal_bridge.Auth.Principal.{Principal, require_roles}
use legal_bridge.Auth.Tests.{settings, admin_alice}
use legal_bridge.Cases.Tests.{with_cases}
use legal_bridge.Motions.Drafting.{
  MotionVersionCreate, create_motion_version, motion_editor, motion_reviewer, get_motion,
  latest_version, newest, is_motion,
}
use legal_bridge.Motions.Review.{
  MotionReviewCreate, review_motion, export, Layout, pdf, docx, lay_out, is_approval, may_export,
  internal_approval_required,
}
use legal_bridge.Motions.Effects.{MotionRequest, BySender}
use legal_bridge.Motions.Routes.{perform}
use legal_bridge.Motions.Invariants.{serve, motion_requests_audited}
use legal_bridge.Motions.Gate.{
  export_needs_approval, new_version_blocks_export, review_bypasses_firewall,
}
use legal_bridge.Motions.History.{said, versions_append_only}
use legal_bridge.Dashboard.{dashboard_summary}
use legal_bridge.Dashboard.Counts.{awaiting_review_stays_zero}

abbrev layout : Layout
layout = record { pdf_bytes = λ title text. codes title; docx_bytes = λ title text. text }

abbrev bail : MotionDraft
bail = record {
  id = 70;
  organization_id = 10;
  case_id = 50;
  analysis_run_id = 60;
  title = "Bail";
  motion_type = "demonstration";
  status = MotionStatus.draft;
  current_version = 1;
  created_by_user_id = 1;
}

abbrev unchecked : MotionVersion
unchecked = record {
  id = 80;
  motion_draft_id = 70;
  version_number = 1;
  content_json = [];
  rendered_text = codes "Draft";
  citation_check_status = CitationStatus.pending;
  ethics_check_status = EthicsStatus.pending;
  created_by_user_id = 1;
}

abbrev drafted : Db
drafted = record with_cases { motion_drafts = bail ∷ []; motion_versions = unchecked ∷ [] }

abbrev approval : MotionReviewCreate
approval = record { decision = Decision.approved; comments = "Fine"; review_pin = "2026" }

abbrev requests : List (Principal × MotionRequest)
requests =
    (admin_alice, MotionRequest.cite 50 70)
    ∷ (admin_alice, MotionRequest.submit 50 70)
    ∷ (admin_alice, MotionRequest.review 2000 90 50 70 approval)
    ∷ (admin_alice, MotionRequest.send 50 70 pdf)
    ∷ []

motion_requests_audited_example :
    let db' = perform settings layout (MotionRequest.cite 50 70) admin_alice drafted in
    (db' ≡ drafted)
    ⊎ ((e : AuditEvent) × (BySender admin_alice e)
        × (db'.audit_events ≡ drafted.audit_events ++ e ∷ []))
motion_requests_audited_example =
    motion_requests_audited settings layout (MotionRequest.cite 50 70) admin_alice drafted

versions_append_only_example :
    let db' = perform settings layout (MotionRequest.audit 50 70) admin_alice drafted in
    (map said db'.motion_versions ≡ map said drafted.motion_versions)
    ⊎ ((v : MotionVersion) × (map said db'.motion_versions
          ≡ map said drafted.motion_versions ++ said v ∷ []))
versions_append_only_example =
    versions_append_only settings layout (MotionRequest.audit 50 70) admin_alice drafted (refl, tt)

review_bypasses_firewall_example :
    let approved =
      (request (review_motion settings 2000 90 50 70 approval admin_alice) drafted).1 in
    (request (export layout 50 70 docx admin_alice) approved).0 ≡ ok (codes "Draft")
review_bypasses_firewall_example =
    review_bypasses_firewall settings layout 2000 90 50 70 approval docx admin_alice drafted bail
      unchecked refl refl refl refl refl

abbrev approved : Db
approved = (request (review_motion settings 2000 90 50 70 approval admin_alice) drafted).1

abbrev sent : Db
sent = (request (export layout 50 70 docx admin_alice) approved).1

sends : request (export layout 50 70 docx admin_alice) approved ≡ (ok (codes "Draft"), sent)
unfolding export review_motion motion_reviewer require_roles get_motion latest_version
sends = refl

export_needs_approval_example :
    (m : MotionDraft) × (v : MotionVersion) × (find (is_motion 10 50 70) approved.motion_drafts
      ≡ some m)
    × (newest m.id approved ≡ some v)
    × (may_export m.status ≡ true)
    × (any (is_approval 10 50 m.id) approved.attorney_reviews ≡ true)
    × (codes "Draft" ≡ lay_out layout docx m.title v.rendered_text)
export_needs_approval_example =
    export_needs_approval layout 50 70 docx admin_alice approved sent (codes "Draft") sends

abbrev revision : MotionVersionCreate
revision = record { content_json = none; rendered_text = some (codes "Revised") }

abbrev redrafted : MotionDraft
redrafted = record bail { current_version = 2 }

abbrev revised : Db
revised = (request (create_motion_version 81 50 70 revision admin_alice) approved).1

revises :
    request (create_motion_version 81 50 70 revision admin_alice) approved ≡ (ok redrafted, revised)
unfolding create_motion_version review_motion motion_editor motion_reviewer require_roles get_motion
    latest_version
revises = refl

abbrev unreviewed : List (Principal × MotionRequest)
unreviewed =
    (admin_alice, MotionRequest.cite 50 70)
    ∷ (admin_alice, MotionRequest.submit 50 70)
    ∷ (admin_alice, MotionRequest.review 2000 91 50 71 approval)
    ∷ (admin_alice, MotionRequest.send 50 70 pdf)
    ∷ []

new_version_blocks_export_example :
    (redrafted.status ≡ MotionStatus.draft)
    × (request (export layout 50 70 pdf admin_alice) revised
        ≡ (err internal_approval_required, revised))
    × ((request (export layout 50 70 pdf admin_alice) (serve settings layout unreviewed revised)).0
        ≢ ok (codes "Revised"))
new_version_blocks_export_example =
    new_version_blocks_export settings layout 81 50 70 revision pdf admin_alice admin_alice
      admin_alice approved revised redrafted unreviewed (codes "Revised") refl revises
      (refl, (refl, (refl, (refl, tt))))

awaiting_review_stays_zero_example :
    (dashboard_summary 10 (serve settings layout requests drafted)).motions_awaiting_review ≡ 0
awaiting_review_stays_zero_example =
    awaiting_review_stays_zero settings layout requests 10 drafted ((λ e. cc), tt)
