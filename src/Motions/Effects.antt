-- ===== src/Motions/Effects.antt =====
-- What a request on motions may do to the database, as a step relation; every route refines it.
use legal_bridge.Prelude.{◌+◌, true, some, List, [], ◌∷◌, ◌++◌, ◌≡◌, find, any}
use legal_bridge.Store.Schema.{
  Uuid, DateTime, admin, attorney, role_eq, RunStatus, AnalysisRun, MotionStatus, MotionDraft,
  MotionVersion, CitationStatus, EthicsStatus, CitationCheckRecord, AttorneyReview, AuditEvent, Db,
}
use legal_bridge.Store.Session.{Action, request}
use legal_bridge.Auth.Principal.{Principal}
use legal_bridge.Motions.Drafting.{
  MotionCreate, MotionVersionCreate, newest, is_motion, add_motion, add_version, save_motion,
  save_version, latest_analysis_run,
}
use legal_bridge.Config.{Settings}
use legal_bridge.Motions.Checks.{has_passed}
use legal_bridge.Motions.Review.{MotionReviewCreate, Format, decided, is_approval, may_export}

pub data MotionRequest : Type 0 where
  create : Uuid → Uuid → Uuid → MotionCreate → MotionRequest
  add : Uuid → Uuid → Uuid → MotionVersionCreate → MotionRequest
  cite : Uuid → Uuid → MotionRequest
  audit : Uuid → Uuid → MotionRequest
  submit : Uuid → Uuid → MotionRequest
  review : DateTime → Uuid → Uuid → Uuid → MotionReviewCreate → MotionRequest
  send : Uuid → Uuid → Format → MotionRequest

-- The rows behind a request, whatever it replies.
abbrev pub after : {A : Type 0} → Action A → Db → Db
after m db = (request m db).1

abbrev pub logged : AuditEvent → Db → Db
logged e db = record db { audit_events = db.audit_events ++ e ∷ [] }

abbrev pub BySender : Principal → AuditEvent → Type 0
BySender sender e =
    (e.organization_id ≡ sender.organization.id) × (e.actor_user_id ≡ some sender.user.id)

-- `motion` is what the request names, and belongs to the sender's organisation.
abbrev pub Named : Principal → Db → MotionDraft → Type 0
Named sender db m =
    (case_id : Uuid) × (motion_id : Uuid) × (find
        (is_motion sender.organization.id case_id motion_id) db.motion_drafts
      ≡ some m)

-- The roles that `motion_editor` admits.
abbrev pub IsEditor : Principal → Type 0
IsEditor sender = any (role_eq sender.user.role) (admin ∷ attorney ∷ []) ≡ true

-- The newest analysis of the motion's case is completed, and is the one that the motion names.
abbrev pub FromAnalysis : MotionDraft → Db → Type 0
FromAnalysis m db =
    (run : AnalysisRun) × (latest_analysis_run m.organization_id m.case_id db ≡ some run)
    × (run.status ≡ RunStatus.completed)
    × (m.analysis_run_id ≡ run.id)

-- The review is what this request asks for, under the review PIN, and in the sender's name.
abbrev pub UnderPin : Settings → MotionRequest → Principal → AttorneyReview → Type 0
UnderPin settings r sender entry =
    (now : DateTime) × (review_id : Uuid) × (case_id : Uuid) × (motion_id : Uuid)
    × (payload : MotionReviewCreate) × (r
        ≡ MotionRequest.review now review_id case_id motion_id payload)
    × (payload.review_pin ≡ settings.review_pin)
    × (entry.motion_draft_id ≡ some motion_id)
    × (entry.decision ≡ payload.decision)
    × (entry.reviewer_user_id ≡ sender.user.id)

pub data Effect (settings : Settings) (r : MotionRequest) (sender : Principal) (db : Db)
    : Db → Type 0 where
  nothing : {db' : Db} → db' ≡ db → Effect settings r sender db db'
  drafted :
      {db' : Db} (m : MotionDraft) (v : MotionVersion) (e : AuditEvent)
      → BySender sender e
      → IsEditor sender × FromAnalysis m db
      → m.organization_id ≡ sender.organization.id
      → m.status ≡ MotionStatus.draft
      → m.current_version ≡ 1
      → v.motion_draft_id ≡ m.id
      → v.version_number ≡ 1
      → v.citation_check_status ≡ CitationStatus.pending
      → db' ≡ logged e (add_version v (add_motion m db))
      → Effect settings r sender db db'
  versioned :
      {db' : Db} (m : MotionDraft) (previous v : MotionVersion) (e : AuditEvent)
      → BySender sender e
      → IsEditor sender
      → Named sender db m
      → newest m.id db ≡ some previous
      → v.motion_draft_id ≡ m.id
      → v.version_number ≡ previous.version_number + 1
      → v.citation_check_status ≡ CitationStatus.pending
      → v.ethics_check_status ≡ EthicsStatus.pending
      → db'
        ≡ logged e (
            save_motion
              (record m { status = MotionStatus.draft; current_version = v.version_number })
              (add_version v db))
      → Effect settings r sender db db'
  checked :
      {db' : Db} (m : MotionDraft) (v : MotionVersion) (c : CitationStatus) (t : EthicsStatus)
      (records : List CitationCheckRecord) (e : AuditEvent)
      → BySender sender e
      → IsEditor sender
      → Named sender db m
      → newest m.id db ≡ some v
      → db'
        ≡ logged e
            (record (save_version
              (record v { citation_check_status = c; ethics_check_status = t })
              db) { citation_checks = db.citation_checks ++ records })
      → Effect settings r sender db db'
  submitted :
      {db' : Db} (m : MotionDraft) (v : MotionVersion) (e : AuditEvent)
      → BySender sender e
      → IsEditor sender
      → Named sender db m
      → newest m.id db ≡ some v
      → has_passed v.citation_check_status ≡ true
      → db' ≡ logged e (save_motion (record m { status = MotionStatus.review_required }) db)
      → Effect settings r sender db db'
  reviewed :
      {db' : Db} (m : MotionDraft) (entry : AttorneyReview) (e : AuditEvent)
      → BySender sender e
      → UnderPin settings r sender entry
      → Named sender db m
      → entry.motion_draft_id ≡ some m.id
      → entry.organization_id ≡ m.organization_id
      → entry.case_id ≡ m.case_id
      → entry.review_pin_verified ≡ true
      → db'
        ≡ logged e (
            save_motion
              (record m { status = decided entry.decision })
              (record db { attorney_reviews = db.attorney_reviews ++ entry ∷ [] }))
      → Effect settings r sender db db'
  exported :
      {db' : Db} (m : MotionDraft) (v : MotionVersion) (e : AuditEvent)
      → BySender sender e
      → Named sender db m
      → newest m.id db ≡ some v
      → may_export m.status ≡ true
      → any (is_approval m.organization_id m.case_id m.id) db.attorney_reviews ≡ true
      → db' ≡ logged e (save_motion (record m { status = MotionStatus.exported }) db)
      → Effect settings r sender db db'
