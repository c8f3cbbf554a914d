-- ===== src/Motions/Drafting.antt =====
-- Motions and their versions: `_get_motion`, `_latest_version`, `create_motion`,
-- `create_motion_version` and `render_motion`.
use legal_bridge.Prelude.{
  ◌+◌, String, Bool, true, false, Option, none, some, List, [], ◌∷◌, ◌++◌, ◌&&◌, ◌==◌, leb, find,
  filter, map, greatest, update_where, codes, join, if◌then◌else◌,
}
use legal_bridge.Store.Schema.{
  Uuid, Text, admin, attorney, reviewer, RunStatus, AnalysisRun, MotionStatus, MotionDraft,
  MotionVersion, CitationStatus, EthicsStatus, Section, AuditEvent, Db, plain, numbered,
}
use legal_bridge.Store.Session.{
  ApplicationError, Action, ◌>>=◌, ◌>>◌, pure, raise, query, modify, commit, or_raise,
  add_audit_event,
}
use legal_bridge.Auth.Principal.{Principal, require_roles}
use legal_bridge.Cases.{get_organization_case}

pub record MotionCreate : Type 0 where
  pub title : String
  pub motion_type : String

pub record MotionVersionCreate : Type 0 where
  pub content_json : Option (List Section)
  pub rendered_text : Option Text

abbrev pub motion_not_found : ApplicationError
motion_not_found = record {
  status_code = 404;
  code = "motion_not_found";
  message = "Motion draft not found.";
}

abbrev pub motion_version_missing : ApplicationError
motion_version_missing = record {
  status_code = 409;
  code = "motion_version_missing";
  message = "The motion has no version to review or export.";
}

abbrev pub analysis_required : ApplicationError
analysis_required = record {
  status_code = 409;
  code = "analysis_required";
  message = "A completed source-grounded analysis is required before drafting.";
}

unfoldable pub motion_editor : Principal → Action Principal
motion_editor = require_roles (admin ∷ attorney ∷ [])

unfoldable pub motion_reviewer : Principal → Action Principal
motion_reviewer = require_roles (admin ∷ attorney ∷ reviewer ∷ [])

abbrev pub is_motion : Uuid → Uuid → Uuid → MotionDraft → Bool
is_motion organization_id case_id motion_id m =
    (m.id == motion_id) && (m.organization_id == organization_id) && (m.case_id == case_id)

unfoldable pub get_motion : Uuid → Uuid → Uuid → Action MotionDraft
get_motion organization_id case_id motion_id = do
  motion ← query (λ db. find (is_motion organization_id case_id motion_id) db.motion_drafts)
  or_raise motion motion_not_found

-- The version with the highest number.
abbrev pub newest : Uuid → Db → Option MotionVersion
newest motion_id db =
    greatest (λ v w. leb w.version_number v.version_number)
      (filter (λ v. v.motion_draft_id == motion_id) db.motion_versions)

unfoldable pub latest_version : Uuid → Action MotionVersion
latest_version motion_id = do
  version ← query (newest motion_id)
  or_raise version motion_version_missing

unfoldable pub latest_analysis_run : Uuid → Uuid → Db → Option AnalysisRun
latest_analysis_run organization_id case_id db =
    greatest (λ r q. leb q.created_at r.created_at)
      (filter (λ r. (r.organization_id == organization_id) && (r.case_id == case_id))
        db.analysis_runs)

-- The text of one section.
abbrev pub render_section : Section → Text
render_section s = s.heading ++ (codes "\n" ++ s.body)

unfoldable pub render_motion : List Section → Text
render_motion sections = join (codes "\n\n") (map render_section sections)

abbrev pub section : String → String → Section
section heading body = record { heading = codes heading; body = codes body }

-- The sections of a motion that a user creates.
abbrev pub initial_sections : List Section
initial_sections =
    section "Demonstration notice"
      "Demonstration draft — attorney review required — not filed with any court."
    ∷ section "Case information" "See the authenticated case record and stored source pages."
    ∷ section "Factual background" "Attorney must add only source-grounded observations."
    ∷ section "Limitations and review notice"
        "Synthetic demonstration data; not legal advice; no automatic court filing."
    ∷ []

abbrev pub motion_event : Principal → Uuid → String → Uuid → String → String → AuditEvent
motion_event principal case_id entity_type entity_id event_type message = record {
  organization_id = principal.organization.id;
  case_id = some case_id;
  actor_user_id = some principal.user.id;
  event_type = event_type;
  message = plain message;
  entity_type = entity_type;
  entity_id = entity_id;
  metadata_json = [];
}

abbrev pub is_completed : Option AnalysisRun → Bool
is_completed none = false
is_completed (some run) = elim run.status [ RunStatus.completed ↦ true | _ ↦ false ]

-- `run` after the guard.
abbrev pub completed_run : Option AnalysisRun → Action AnalysisRun
completed_run run =
    if is_completed run then or_raise run analysis_required else raise analysis_required

abbrev pub add_motion : MotionDraft → Db → Db
add_motion m db = record db { motion_drafts = db.motion_drafts ++ m ∷ [] }

abbrev pub add_version : MotionVersion → Db → Db
add_version v db = record db { motion_versions = db.motion_versions ++ v ∷ [] }

-- The stored row of a changed motion, and of a changed version.
abbrev pub save_motion : MotionDraft → Db → Db
save_motion m db = record db {
  motion_drafts = update_where (λ r. r.id == m.id) (λ _. m) db.motion_drafts;
}

abbrev pub save_version : MotionVersion → Db → Db
save_version v db = record db {
  motion_versions = update_where (λ r. r.id == v.id) (λ _. v) db.motion_versions;
}

-- `motion_id` and `version_id` are fresh.
unfoldable pub create_motion : Uuid → Uuid → Uuid → MotionCreate → Principal → Action MotionDraft
create_motion motion_id version_id case_id payload sender = do
  principal ← motion_editor sender
  get_organization_case principal.organization.id case_id
  latest ← query (latest_analysis_run principal.organization.id case_id)
  run ← completed_run latest
  let motion : MotionDraft = record {
    id = motion_id;
    organization_id = principal.organization.id;
    case_id = case_id;
    analysis_run_id = run.id;
    title = payload.title;
    motion_type = payload.motion_type;
    status = MotionStatus.draft;
    current_version = 1;
    created_by_user_id = principal.user.id;
  }
  modify (add_motion motion)
  let version : MotionVersion = record {
    id = version_id;
    motion_draft_id = motion.id;
    version_number = 1;
    content_json = initial_sections;
    rendered_text = render_motion initial_sections;
    citation_check_status = CitationStatus.pending;
    ethics_check_status = EthicsStatus.pending;
    created_by_user_id = principal.user.id;
  }
  modify (add_version version)
  add_audit_event (
      motion_event principal case_id "motion_draft" motion.id "motion_created"
        "Source-grounded demonstration motion created.")
  commit
  pure motion

-- `a or b`: an absent or an empty value is replaced.
abbrev pub or_else {ℓ} : {A : Type ℓ} → Option (List A) → List A → List A
or_else none other = other
or_else (some []) other = other
or_else (some (x ∷ xs)) other = x ∷ xs

-- The version that follows `previous`.
abbrev pub next_version :
    Uuid → MotionDraft → MotionVersion → MotionVersionCreate → Principal → MotionVersion
next_version version_id motion previous payload principal =
    let content = or_else payload.content_json previous.content_json in
    record {
      id = version_id;
      motion_draft_id = motion.id;
      version_number = previous.version_number + 1;
      content_json = content;
      rendered_text = or_else payload.rendered_text (render_motion content);
      citation_check_status = CitationStatus.pending;
      ethics_check_status = EthicsStatus.pending;
      created_by_user_id = principal.user.id;
    }

unfoldable pub create_motion_version :
    Uuid → Uuid → Uuid → MotionVersionCreate → Principal → Action MotionDraft
create_motion_version version_id case_id motion_id payload sender = do
  principal ← motion_editor sender
  motion ← get_motion principal.organization.id case_id motion_id
  previous ← latest_version motion.id
  let version = next_version version_id motion previous payload principal
  modify (add_version version)
  let changed = record motion {
    status = MotionStatus.draft;
    current_version = version.version_number;
  }
  modify (save_motion changed)
  add_audit_event
      (record (motion_event principal case_id "motion_version" version.id "motion_version_created"
        "") {
          message =
              numbered "Motion version " version.version_number
                " created; prior approval invalidated.";
        })
  commit
  pure changed
