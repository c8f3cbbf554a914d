-- ===== src/Motions/Refinement.antt =====
-- Every request on motions has one of the effects.
use legal_bridge.Prelude.{
  ◌+◌, true, Option, none, some, [], ◌∷◌, ◌++◌, ◌≡◌, ◌⊎◌, arith, find, any, eq_iff,
}
use legal_bridge.Store.Schema.{
  Uuid, DateTime, MotionStatus, MotionDraft, MotionVersion, AttorneyReview, AuditEvent, Db, name,
  names, number, numbered,
}
use legal_bridge.Config.{Settings}
use legal_bridge.Auth.Principal.{Principal, require_roles}
use legal_bridge.Motions.Drafting.{
  MotionVersionCreate, create_motion_version, motion_editor, motion_reviewer, get_motion,
  latest_version, newest, is_motion, next_version, add_version, save_motion, save_version,
  motion_event,
}
use legal_bridge.Motions.Checks.{
  check_motion_citations, check_motion_ethics, submit_motion_review, has_passed, firewall,
  cited_pages, cited_authorities, missing_phrases, ethics_status, citation_status_value,
}
use legal_bridge.Motions.Review.{
  MotionReviewCreate, review_motion, export, Layout, Format, decided, is_approval, may_export,
  decision_value, format_value, export_message,
}
use legal_bridge.Motions.Effects.{after, logged, IsEditor}

module _ (sender : Principal) (db : Db) (case_id motion_id : Uuid) where
  -- The motion that the request names, if the sender's organisation has it.
  abbrev pub named : Option MotionDraft
  named = find (is_motion sender.organization.id case_id motion_id) db.motion_drafts

  abbrev pub org : Uuid
  org = sender.organization.id

  pub cite_missing : named ≡ none → after (check_motion_citations case_id motion_id sender) db ≡ db
  unfolding check_motion_citations motion_editor require_roles get_motion latest_version
  cite_missing h = ground arith

  pub cite_unversioned :
      (m : MotionDraft)
      → named ≡ some m
      → newest m.id db ≡ none
      → after (check_motion_citations case_id motion_id sender) db ≡ db
  unfolding check_motion_citations motion_editor require_roles get_motion latest_version
  cite_unversioned m h k = ground arith

  abbrev pub cite_event : MotionDraft → MotionVersion → AuditEvent
  cite_event m v =
      record (motion_event sender case_id "motion_version" v.id "citation_firewall_check"
        "Citation Firewall completed for the current motion version.") {
          metadata_json =
              record {
                key = "status";
                value = name (
                    citation_status_value
                      (firewall org case_id v.id (cited_pages org case_id db)
                        (cited_authorities org db)).0);
              }
              ∷ [];
        }

  pub cite_done :
      (m : MotionDraft) (v : MotionVersion)
      → named ≡ some m
      → newest m.id db ≡ some v
      → (after (check_motion_citations case_id motion_id sender) db ≡ db)
        ⊎ IsEditor sender
          × (after (check_motion_citations case_id motion_id sender) db
              ≡ logged
                  (cite_event m v)
                  (record (save_version
                    (record v {
                      citation_check_status =
                          (firewall org case_id v.id
                            (cited_pages org case_id db)
                            (cited_authorities org db)).0;
                    })
                    db) {
                      citation_checks =
                          db.citation_checks
                          ++ (firewall org case_id v.id
                              (cited_pages org case_id db)
                              (cited_authorities org db)).1;
                    }))
  unfolding check_motion_citations motion_editor require_roles get_motion latest_version
  cite_done m v h k = ground arith

  pub audit_missing : named ≡ none → after (check_motion_ethics case_id motion_id sender) db ≡ db
  unfolding check_motion_ethics motion_editor require_roles get_motion latest_version
  audit_missing h = ground arith

  pub audit_unversioned :
      (m : MotionDraft)
      → named ≡ some m
      → newest m.id db ≡ none
      → after (check_motion_ethics case_id motion_id sender) db ≡ db
  unfolding check_motion_ethics motion_editor require_roles get_motion latest_version
  audit_unversioned m h k = ground arith

  abbrev pub audit_event : MotionDraft → MotionVersion → AuditEvent
  audit_event m v =
      record (motion_event sender case_id "motion_version" v.id "ethics_check"
        "Ethics Auditor completed for the current motion version.") {
          metadata_json =
              record {
                key = "missing_required_phrases";
                value = names (missing_phrases v.rendered_text);
              }
              ∷ [];
        }

  pub audit_done :
      (m : MotionDraft) (v : MotionVersion)
      → named ≡ some m
      → newest m.id db ≡ some v
      → (after (check_motion_ethics case_id motion_id sender) db ≡ db)
        ⊎ IsEditor sender
          × (after (check_motion_ethics case_id motion_id sender) db
              ≡ logged (audit_event m v) (
                  save_version
                    (record v {
                      ethics_check_status = ethics_status (missing_phrases v.rendered_text);
                    })
                    db))
  unfolding check_motion_ethics motion_editor require_roles get_motion latest_version
  audit_done m v h k = ground arith

  pub submit_missing : named ≡ none → after (submit_motion_review case_id motion_id sender) db ≡ db
  unfolding submit_motion_review motion_editor require_roles get_motion latest_version
  submit_missing h = ground arith

  pub submit_unversioned :
      (m : MotionDraft)
      → named ≡ some m
      → newest m.id db ≡ none
      → after (submit_motion_review case_id motion_id sender) db ≡ db
  unfolding submit_motion_review motion_editor require_roles get_motion latest_version
  submit_unversioned m h k = ground arith

  abbrev pub submit_event : MotionDraft → MotionVersion → AuditEvent
  submit_event m v =
      motion_event sender case_id "motion_draft" m.id "motion_submitted_for_review"
        "Motion submitted for internal attorney review."

  pub submit_done :
      (m : MotionDraft) (v : MotionVersion)
      → named ≡ some m
      → newest m.id db ≡ some v
      → (after (submit_motion_review case_id motion_id sender) db ≡ db)
        ⊎ IsEditor sender
          × (has_passed v.citation_check_status ≡ true)
          × (after (submit_motion_review case_id motion_id sender) db
              ≡ logged
                  (submit_event m v)
                  (save_motion (record m { status = MotionStatus.review_required }) db))
  unfolding submit_motion_review motion_editor require_roles get_motion latest_version
  submit_done m v h k = ground arith

  pub add_missing :
      (version_id : Uuid) (payload : MotionVersionCreate)
      → named ≡ none
      → after (create_motion_version version_id case_id motion_id payload sender) db ≡ db
  unfolding create_motion_version motion_editor require_roles get_motion latest_version
  add_missing version_id payload h = ground arith

  pub add_unversioned :
      (version_id : Uuid) (payload : MotionVersionCreate) (m : MotionDraft)
      → named ≡ some m
      → newest m.id db ≡ none
      → after (create_motion_version version_id case_id motion_id payload sender) db ≡ db
  unfolding create_motion_version motion_editor require_roles get_motion latest_version
  add_unversioned version_id payload m h k = ground arith

  abbrev pub add_event : Uuid → MotionVersionCreate → MotionDraft → MotionVersion → AuditEvent
  add_event version_id payload m v =
      record (motion_event sender case_id "motion_version" version_id "motion_version_created" "") {
        message =
            numbered "Motion version " (v.version_number + 1)
              " created; prior approval invalidated.";
      }

  pub add_done :
      (version_id : Uuid) (payload : MotionVersionCreate) (m : MotionDraft) (v : MotionVersion)
      → named ≡ some m
      → newest m.id db ≡ some v
      → (after (create_motion_version version_id case_id motion_id payload sender) db ≡ db)
        ⊎ IsEditor sender
          × (after (create_motion_version version_id case_id motion_id payload sender) db
              ≡ logged (add_event version_id payload m v) (
                  save_motion
                    (record m {
                      status = MotionStatus.draft;
                      current_version = v.version_number + 1;
                    })
                    (add_version (next_version version_id m v payload sender) db)))
  unfolding create_motion_version motion_editor require_roles get_motion latest_version
  add_done version_id payload m v h k = ground arith

  pub send_missing :
      (layout : Layout) (format : Format)
      → named ≡ none
      → after (export layout case_id motion_id format sender) db ≡ db
  unfolding export motion_reviewer require_roles get_motion latest_version
  send_missing layout format h = ground arith

  pub send_unversioned :
      (layout : Layout) (format : Format) (m : MotionDraft)
      → named ≡ some m
      → newest m.id db ≡ none
      → after (export layout case_id motion_id format sender) db ≡ db
  unfolding export motion_reviewer require_roles get_motion latest_version
  send_unversioned layout format m h k = ground arith

  abbrev pub send_event : Layout → Format → MotionDraft → MotionVersion → AuditEvent
  send_event layout format m v =
      record (motion_event sender case_id "motion_draft" m.id "motion_export"
        (export_message format)) {
          metadata_json =
              record { key = "format"; value = name (format_value format) }
              ∷ record { key = "version"; value = number v.version_number }
              ∷ [];
        }

  pub send_done :
      (layout : Layout) (format : Format) (m : MotionDraft) (v : MotionVersion)
      → named ≡ some m
      → newest m.id db ≡ some v
      → (after (export layout case_id motion_id format sender) db ≡ db)
        ⊎ (may_export m.status ≡ true)
          × (any (is_approval org case_id m.id) db.attorney_reviews ≡ true)
          × (after (export layout case_id motion_id format sender) db
              ≡ logged
                  (send_event layout format m v)
                  (save_motion (record m { status = MotionStatus.exported }) db))
  unfolding export motion_reviewer require_roles get_motion latest_version
  send_done layout format m v h k = ground arith

  module _ (settings : Settings) (now : DateTime) (review_id : Uuid)
      (payload : MotionReviewCreate) where
    pub review_missing :
        named ≡ none
        → after (review_motion settings now review_id case_id motion_id payload sender) db ≡ db
    unfolding review_motion motion_reviewer require_roles get_motion
    review_missing h = ground arith

    abbrev pub recorded : MotionDraft → AttorneyReview
    recorded m = record {
      id = review_id;
      organization_id = org;
      case_id = case_id;
      motion_draft_id = some m.id;
      reviewer_user_id = sender.user.id;
      decision = payload.decision;
      comments = payload.comments;
      review_pin_verified = true;
      reviewed_at = some now;
    }

    abbrev pub review_event : AuditEvent
    review_event =
        record (motion_event sender case_id "attorney_review" review_id "attorney_review"
          "Internal demonstration review recorded — not a court signature and not a court filing.") {
            metadata_json =
                record { key = "decision"; value = name (decision_value payload.decision) } ∷ [];
          }

    pub review_done :
        (m : MotionDraft)
        → named ≡ some m
        → (after (review_motion settings now review_id case_id motion_id payload sender) db ≡ db)
          ⊎ (payload.review_pin ≡ settings.review_pin)
            × (after (review_motion settings now review_id case_id motion_id payload sender) db
                ≡ logged review_event (
                    save_motion
                      (record m { status = decided payload.decision })
                      (record db { attorney_reviews = db.attorney_reviews ++ recorded m ∷ [] })))
    unfolding review_motion motion_reviewer require_roles get_motion
    review_done m h = ground (arith, eq_iff payload.review_pin settings.review_pin)
