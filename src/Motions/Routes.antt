-- ===== src/Motions/Routes.antt =====
-- The refinement: whatever is requested, the rows that a motion route leaves are one `Effect`.
use mathlib.Core.List.{append-nil}
use legal_bridge.Prelude.{
  sym, ap, Option, none, some, [], ◌≡◌, refl, ◌⊎◌, inl, inr, arith, find, Option-cases,
}
use legal_bridge.Store.Schema.{
  Uuid, DateTime, MotionStatus, MotionDraft, MotionVersion, CitationStatus, EthicsStatus,
  AuditEvent, AnalysisRun, RunStatus, Db,
}
use legal_bridge.Store.Tables.{find_holds}
use legal_bridge.Config.{Settings}
use legal_bridge.Auth.Principal.{Principal, require_roles}
use legal_bridge.Cases.{get_organization_case}
use legal_bridge.Motions.Drafting.{
  MotionCreate, MotionVersionCreate, create_motion, create_motion_version, motion_editor,
  latest_analysis_run, newest, is_motion, next_version, add_motion, add_version, motion_event,
  initial_sections, render_motion,
}
use legal_bridge.Motions.Checks.{
  check_motion_citations, check_motion_ethics, submit_motion_review, missing_phrases, ethics_status,
}
use legal_bridge.Motions.Review.{MotionReviewCreate, review_motion, export, Layout, Format}
use legal_bridge.Motions.Effects.{
  MotionRequest, after, logged, Named, IsEditor, Effect, nothing, drafted, versioned, checked,
  submitted, reviewed, exported,
}
use legal_bridge.Motions.Refinement

module _ (sender : Principal) (db : Db) (new_id version_id case_id : Uuid)
    (payload : MotionCreate) where
  abbrev org : Uuid
  org = sender.organization.id

  abbrev created : AnalysisRun → MotionDraft
  created run = record {
    id = new_id;
    organization_id = org;
    case_id = case_id;
    analysis_run_id = run.id;
    title = payload.title;
    motion_type = payload.motion_type;
    status = MotionStatus.draft;
    current_version = 1;
    created_by_user_id = sender.user.id;
  }

  abbrev first_version : MotionVersion
  first_version = record {
    id = version_id;
    motion_draft_id = new_id;
    version_number = 1;
    content_json = initial_sections;
    rendered_text = render_motion initial_sections;
    citation_check_status = CitationStatus.pending;
    ethics_check_status = EthicsStatus.pending;
    created_by_user_id = sender.user.id;
  }

  abbrev created_event : AuditEvent
  created_event =
      motion_event sender case_id "motion_draft" new_id "motion_created"
        "Source-grounded demonstration motion created."

  no_run :
      latest_analysis_run org case_id db ≡ none
      → after (create_motion new_id version_id case_id payload sender) db ≡ db
  unfolding create_motion motion_editor require_roles get_organization_case
  no_run h = ground arith

  some_run :
      (run : AnalysisRun)
      → latest_analysis_run org case_id db ≡ some run
      → (after (create_motion new_id version_id case_id payload sender) db ≡ db)
        ⊎ IsEditor sender
          × (run.status ≡ RunStatus.completed)
          × (after (create_motion new_id version_id case_id payload sender) db
              ≡ logged created_event (add_version first_version (add_motion (created run) db)))
  unfolding create_motion motion_editor require_roles get_organization_case
  some_run run h = ground arith

  create-Effect :
      (settings : Settings) (r : MotionRequest)
      → Effect settings r sender db
          (after (create_motion new_id version_id case_id payload sender) db)
  create-Effect settings r = elim (Option-cases (latest_analysis_run org case_id db)) [
    | inl e ↦ nothing (no_run e)
    | inr (run, e) ↦ elim (some_run run e) [
      | inl f ↦ nothing f
      | inr (ed, done, f) ↦
          drafted (created run) first_version created_event (refl, refl) (ed, (run, e, done, refl))
            refl refl refl refl refl refl f
    ]
  ]

module _ (settings : Settings) (r : MotionRequest) (sender : Principal) (db : Db)
    (case_id motion_id : Uuid) where
  abbrev named : Option MotionDraft
  named = find (is_motion sender.organization.id case_id motion_id) db.motion_drafts

  -- Without the motion, or without a version of it, a route that needs them changes nothing.
  by_motion :
      {db' : Db}
      → (named ≡ none → db' ≡ db)
      → ((m : MotionDraft) → named ≡ some m → Effect settings r sender db db')
      → Effect settings r sender db db'
  by_motion absent present = elim (Option-cases named) [
    | inl e ↦ nothing (absent e)
    | inr (m, e) ↦ present m e
  ]

  by_version :
      {db' : Db} (m : MotionDraft)
      → (newest m.id db ≡ none → db' ≡ db)
      → ((v : MotionVersion) → newest m.id db ≡ some v → Effect settings r sender db db')
      → Effect settings r sender db db'
  by_version m absent present = elim (Option-cases (newest m.id db)) [
    | inl e ↦ nothing (absent e)
    | inr (v, e) ↦ present v e
  ]

  named_in : (m : MotionDraft) → named ≡ some m → Named sender db m
  named_in m e = (case_id, motion_id, e)

  cite-Effect :
      Effect settings r sender db (after (check_motion_citations case_id motion_id sender) db)
  cite-Effect = by_motion (Refinement.cite_missing sender db case_id motion_id) λ m e.
      by_version m (Refinement.cite_unversioned sender db case_id motion_id m e) λ v f.
        elim (Refinement.cite_done sender db case_id motion_id m v e f) [
          | inl g ↦ nothing g
          | inr (ed, g) ↦
              checked m v _ v.ethics_check_status _
                (Refinement.cite_event sender db case_id motion_id m v) (refl, refl) ed
                (named_in m e) f g
        ]

  audit-Effect :
      Effect settings r sender db (after (check_motion_ethics case_id motion_id sender) db)
  audit-Effect = by_motion (Refinement.audit_missing sender db case_id motion_id) λ m e.
      by_version m (Refinement.audit_unversioned sender db case_id motion_id m e) λ v f.
        elim (Refinement.audit_done sender db case_id motion_id m v e f) [
          | inl g ↦ nothing g
          | inr (ed, g) ↦
              checked m v v.citation_check_status (ethics_status (missing_phrases v.rendered_text))
                [] (Refinement.audit_event sender db case_id motion_id m v) (refl, refl) ed
                (named_in m e) f (rw append-nil g)
        ]

  submit-Effect :
      Effect settings r sender db (after (submit_motion_review case_id motion_id sender) db)
  submit-Effect = by_motion (Refinement.submit_missing sender db case_id motion_id) λ m e.
      by_version m (Refinement.submit_unversioned sender db case_id motion_id m e) λ v f.
        elim (Refinement.submit_done sender db case_id motion_id m v e f) [
          | inl g ↦ nothing g
          | inr (ed, p, g) ↦
              submitted m v (Refinement.submit_event sender db case_id motion_id m v) (refl, refl)
                ed (named_in m e) f p g
        ]

  add-Effect :
      (version_id : Uuid) (payload : MotionVersionCreate)
      → Effect settings r sender db
          (after (create_motion_version version_id case_id motion_id payload sender) db)
  add-Effect version_id payload =
      by_motion (Refinement.add_missing sender db case_id motion_id version_id payload) λ m e.
        by_version m (Refinement.add_unversioned sender db case_id motion_id version_id payload m e)
          λ v f. elim (Refinement.add_done sender db case_id motion_id version_id payload m v e f) [
            | inl g ↦ nothing g
            | inr (ed, g) ↦
                versioned m v (next_version version_id m v payload sender)
                  (Refinement.add_event sender db case_id motion_id version_id payload m v)
                  (refl, refl) ed (named_in m e) f refl refl refl refl g
          ]

  found_org :
      (m : MotionDraft)
      → named ≡ some m
      → (m.organization_id ≡ sender.organization.id) × (m.case_id ≡ case_id)
  found_org m e =
      let fits =
        find_holds (is_motion sender.organization.id case_id motion_id) db.motion_drafts m e in
      (ground arith, ground arith)

  send-Effect :
      (layout : Layout) (format : Format)
      → Effect settings r sender db (after (export layout case_id motion_id format sender) db)
  send-Effect layout format =
      by_motion (Refinement.send_missing sender db case_id motion_id layout format) λ m e.
        by_version m (Refinement.send_unversioned sender db case_id motion_id layout format m e)
          λ v f. elim (Refinement.send_done sender db case_id motion_id layout format m v e f) [
            | inl g ↦ nothing g
            | inr (p, q, g) ↦
                let (o, c) = found_org m e in
                exported m v (Refinement.send_event sender db case_id motion_id layout format m v)
                  (refl, refl) (named_in m e) f p (rw (o, c) q) g
          ]

  found_id : (m : MotionDraft) → named ≡ some m → some m.id ≡ some motion_id
  found_id m e =
      let fits =
        find_holds (is_motion sender.organization.id case_id motion_id) db.motion_drafts m e in
      let same : m.id ≡ motion_id = ground arith in ap some same

review-Effect :
    (settings : Settings) (now : DateTime) (review_id case_id motion_id : Uuid)
    (payload : MotionReviewCreate) (sender : Principal) (db : Db)
    → let r = MotionRequest.review now review_id case_id motion_id payload in
      Effect settings r sender db
        (after (review_motion settings now review_id case_id motion_id payload sender) db)
review-Effect settings now review_id case_id motion_id payload sender db =
    let r = MotionRequest.review now review_id case_id motion_id payload in
    by_motion settings r sender db case_id motion_id
      (Refinement.review_missing sender db case_id motion_id settings now review_id payload)
      λ m e.
        elim (Refinement.review_done sender db case_id motion_id settings now review_id payload m
          e) [
            | inl g ↦ nothing g
            | inr (pin, g) ↦
                let (o, c) = found_org settings r sender db case_id motion_id m e in
                let same = found_id settings r sender db case_id motion_id m e in
                reviewed m
                  (Refinement.recorded sender db case_id motion_id settings now review_id payload m)
                  (Refinement.review_event sender db case_id motion_id settings now review_id
                    payload)
                  (refl, refl)
                  (now, review_id, case_id, motion_id, payload, refl, pin, same, refl, refl)
                  (named_in settings r sender db case_id motion_id m e) refl (sym o) (sym c) refl g
          ]

-- The action of a request, without its reply.
abbrev pub perform : Settings → Layout → MotionRequest → Principal → Db → Db
perform settings layout (MotionRequest.create motion_id version_id case_id payload) sender =
    after (create_motion motion_id version_id case_id payload sender)
perform settings layout (MotionRequest.add version_id case_id motion_id payload) sender =
    after (create_motion_version version_id case_id motion_id payload sender)
perform settings layout (MotionRequest.cite case_id motion_id) sender =
    after (check_motion_citations case_id motion_id sender)
perform settings layout (MotionRequest.audit case_id motion_id) sender =
    after (check_motion_ethics case_id motion_id sender)
perform settings layout (MotionRequest.submit case_id motion_id) sender =
    after (submit_motion_review case_id motion_id sender)
perform settings layout (MotionRequest.review now review_id case_id motion_id payload) sender =
    after (review_motion settings now review_id case_id motion_id payload sender)
perform settings layout (MotionRequest.send case_id motion_id format) sender =
    after (export layout case_id motion_id format sender)

pub perform-Effect :
    (settings : Settings) (layout : Layout) (r : MotionRequest) (sender : Principal) (db : Db)
    → Effect settings r sender db (perform settings layout r sender db)
perform-Effect settings layout (MotionRequest.create motion_id version_id case_id payload) sender
      db =
    create-Effect sender db motion_id version_id case_id payload settings
      (MotionRequest.create motion_id version_id case_id payload)
perform-Effect settings layout (MotionRequest.add version_id case_id motion_id payload) sender db =
    add-Effect settings (MotionRequest.add version_id case_id motion_id payload) sender db case_id
      motion_id version_id payload
perform-Effect settings layout (MotionRequest.cite case_id motion_id) sender db =
    cite-Effect settings (MotionRequest.cite case_id motion_id) sender db case_id motion_id
perform-Effect settings layout (MotionRequest.audit case_id motion_id) sender db =
    audit-Effect settings (MotionRequest.audit case_id motion_id) sender db case_id motion_id
perform-Effect settings layout (MotionRequest.submit case_id motion_id) sender db =
    submit-Effect settings (MotionRequest.submit case_id motion_id) sender db case_id motion_id
perform-Effect settings layout (MotionRequest.review now review_id case_id motion_id payload) sender
      db =
    review-Effect settings now review_id case_id motion_id payload sender db
perform-Effect settings layout (MotionRequest.send case_id motion_id format) sender db =
    send-Effect settings (MotionRequest.send case_id motion_id format) sender db case_id motion_id
      layout format
