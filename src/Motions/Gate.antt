-- ===== src/Motions/Gate.antt =====
-- What stands between a motion and its export.
use legal_bridge.Prelude.{
  ℕ, ◌+◌, Bool, true, false, some, List, [], ◌∷◌, ◌++◌, ◌≡◌, ◌≢◌, All, refl, inl, inr, ◌==◌, arith,
  find, any, filter, greatest, leb, update_where, eq_iff, Option-cases, Bool-cases,
}
use legal_bridge.Store.Schema.{
  Uuid, DateTime, MotionStatus, MotionDraft, MotionVersion, Decision, Db,
}
use legal_bridge.Store.Session.{ok, err, request}
use legal_bridge.Store.Tables.{find_holds, find-update_where}
use legal_bridge.Config.{Settings}
use legal_bridge.Auth.Principal.{Principal, require_roles}
use legal_bridge.Motions.Drafting.{
  MotionVersionCreate, create_motion_version, motion_editor, motion_reviewer, get_motion,
  latest_version, newest, is_motion, next_version,
}
use legal_bridge.Motions.Checks.{has_passed}
use legal_bridge.Motions.Effects.{MotionRequest}
use legal_bridge.Motions.Invariants.{serve, any-append_right}
use legal_bridge.Motions.Blocked.{is_review_of, Held, Blocked, All-find, All-updated, serve-Blocked}
use legal_bridge.Motions.Review.{
  MotionReviewCreate, review_motion, export, Layout, Format, lay_out, is_approval, may_export,
  decided, internal_approval_required,
}

module _ (layout : Layout) (case_id motion_id : Uuid) (format : Format) (sender : Principal)
    (db db' : Db) (content : List ℕ) where
  -- What leaves by an export: the motion's newest version, laid out, of a motion of the sender's
  -- organisation that is approved or exported and has an approval under the review PIN on record.
  pub export_needs_approval :
      request (export layout case_id motion_id format sender) db ≡ (ok content, db')
      → (m : MotionDraft) × (v : MotionVersion) × (find
            (is_motion sender.organization.id case_id motion_id)
            db.motion_drafts
          ≡ some m)
        × (newest m.id db ≡ some v)
        × (may_export m.status ≡ true)
        × (any (is_approval sender.organization.id case_id m.id) db.attorney_reviews ≡ true)
        × (content ≡ lay_out layout format m.title v.rendered_text)
  unfolding export motion_reviewer require_roles get_motion latest_version
  export_needs_approval h =
      elim (Option-cases
        (find (is_motion sender.organization.id case_id motion_id) db.motion_drafts)) [
          | inl e ↦ ground arith
          | inr (m, e) ↦ elim (Option-cases (newest m.id db)) [
            | inl f ↦ ground arith
            | inr (v, f) ↦ (m, v, e, f, ground arith, ground arith, ground arith)
          ]
        ]

-- A motion with a version has a newest one.
greatest-append :
    (p : MotionVersion → Bool) (v : MotionVersion) (vs : List MotionVersion)
    → p v ≡ true
    → (w : MotionVersion) × (greatest
          (λ a b. leb b.version_number a.version_number)
          (filter p (vs ++ v ∷ []))
        ≡ some w)
greatest-append p v [] h = (v, ground arith)
greatest-append p v (x ∷ vs) h =
    let (w, e) = greatest-append p v vs h in
    elim (Bool-cases (p x)) [
      | inl keep ↦ elim (Bool-cases (leb w.version_number x.version_number)) [
        | inl first ↦ (x, ground arith)
        | inr later ↦ (w, ground arith)
      ]
      | inr drop_it ↦ (w, ground arith)
    ]

-- A motion that is neither approved nor exported is not exported, whatever reviews there are.
export_refused :
    (layout : Layout) (case_id motion_id : Uuid) (format : Format) (sender : Principal) (db : Db)
    (m : MotionDraft) (v : MotionVersion)
    → find (is_motion sender.organization.id case_id motion_id) db.motion_drafts ≡ some m
    → newest m.id db ≡ some v
    → may_export m.status ≡ false
    → request (export layout case_id motion_id format sender) db
      ≡ (err internal_approval_required, db)
unfolding export motion_reviewer require_roles get_motion latest_version
export_refused layout case_id motion_id format sender db m v h k l = ground arith

-- What a successful new version has found, and what it leaves of the motions and versions.
version_inv :
    (version_id case_id motion_id : Uuid) (payload : MotionVersionCreate) (sender : Principal)
    (db db' : Db) (m' : MotionDraft)
    → request (create_motion_version version_id case_id motion_id payload sender) db ≡ (ok m', db')
    → (m : MotionDraft) × (v : MotionVersion) × (find
          (is_motion sender.organization.id case_id motion_id)
          db.motion_drafts
        ≡ some m)
      × (newest m.id db ≡ some v)
      × (m' ≡ record m { status = MotionStatus.draft; current_version = v.version_number + 1 })
      × (db'.motion_drafts ≡ update_where (λ r. r.id == m'.id) (λ _. m') db.motion_drafts)
      × (db'.motion_versions
          ≡ db.motion_versions ++ next_version version_id m v payload sender ∷ [])
unfolding create_motion_version motion_editor require_roles get_motion latest_version
version_inv version_id case_id motion_id payload sender db db' m' h =
    elim (Option-cases
      (find (is_motion sender.organization.id case_id motion_id) db.motion_drafts)) [
        | inl e ↦ ground arith
        | inr (m, e) ↦ elim (Option-cases (newest m.id db)) [
          | inl f ↦ ground arith
          | inr (v, f) ↦ (m, v, e, f, ground arith, ground arith, ground arith)
        ]
      ]

-- Right behind a successful new version the motion may not be exported.
version-Blocked :
    (version_id case_id motion_id : Uuid) (payload : MotionVersionCreate) (sender : Principal)
    (db db' : Db) (m' : MotionDraft)
    → request (create_motion_version version_id case_id motion_id payload sender) db ≡ (ok m', db')
    → Blocked motion_id db'
version-Blocked version_id case_id motion_id payload sender db db' m' h =
    let (m, v, e, f, changed, drafts, versions) =
      version_inv version_id case_id motion_id payload sender db db' m' h in
    let fits =
      find_holds (is_motion sender.organization.id case_id motion_id) db.motion_drafts m e in
    let here : m'.id ≡ motion_id = ground arith in
    rw drafts (
      All-updated (Held motion_id) (λ r. r.id == m'.id) m' db.motion_drafts (λ same. ground arith)
        (λ r other same. ground arith))

-- A motion that may not be exported is not, in whichever form it is asked for.
export-Blocked :
    (layout : Layout) (case_id motion_id : Uuid) (format : Format) (reader : Principal) (db : Db)
    (content : List ℕ)
    → Blocked motion_id db
    → (request (export layout case_id motion_id format reader) db).0 ≢ ok content
export-Blocked layout case_id motion_id format reader db content h e =
    let (m, v, found, top, allowed, approved_before, text) =
      export_needs_approval layout case_id motion_id format reader db
        (request (export layout case_id motion_id format reader) db).1 content (rw e refl) in
    let fits =
      find_holds (is_motion reader.organization.id case_id motion_id) db.motion_drafts m found in
    let held =
      All-find (Held motion_id) (is_motion reader.organization.id case_id motion_id)
        db.motion_drafts m h found in
    ground (arith, held (ground arith))

-- A new version takes the approval back: the motion that is returned is a draft; its export is
-- refused with 409 at once to every member of the organisation, in either format, and changes no
-- row; and until it is reviewed again, behind any requests on motions by anyone that hold no review
-- of this motion, no export of it to anyone delivers anything.
pub new_version_blocks_export :
    (settings : Settings) (layout : Layout) (version_id case_id motion_id : Uuid)
    (payload : MotionVersionCreate) (format : Format) (sender reader anyone : Principal)
    (db db' : Db) (m' : MotionDraft) (requests : List (Principal × MotionRequest))
    (content : List ℕ)
    → reader.organization.id ≡ sender.organization.id
    → request (create_motion_version version_id case_id motion_id payload sender) db ≡ (ok m', db')
    → All (λ q. is_review_of motion_id q.1 ≡ false) requests
    → (m'.status ≡ MotionStatus.draft)
      × (request (export layout case_id motion_id format reader) db'
          ≡ (err internal_approval_required, db'))
      × ((request
            (export layout case_id motion_id format anyone)
            (serve settings layout requests db')).0
          ≢ ok content)
new_version_blocks_export settings layout version_id case_id motion_id payload format sender reader
      anyone db db' m' requests content same h unreviewed =
    let (m, v, e, f, changed, drafts, versions) =
      version_inv version_id case_id motion_id payload sender db db' m' h in
    let fits =
      find_holds (is_motion sender.organization.id case_id motion_id) db.motion_drafts m e in
    let v' = next_version version_id m v payload sender in
    let found : find (is_motion reader.organization.id case_id motion_id) db'.motion_drafts
        ≡ some m' =
      rw (same, drafts)
        (find-update_where (is_motion sender.organization.id case_id motion_id) (λ r. r.id == m'.id)
          m' db.motion_drafts m e (ground arith) (ground arith)) in
    let (w, top) =
      greatest-append (λ u. u.motion_draft_id == m'.id) v' db.motion_versions (ground arith) in
    (
      ground arith,
      export_refused layout case_id motion_id format reader db' m' w found (rw versions top)
          (ground arith),
      export-Blocked layout case_id motion_id format anyone (serve settings layout requests db')
          content
          (serve-Blocked motion_id settings layout requests db' unreviewed
            (version-Blocked version_id case_id motion_id payload sender db db' m' h)),
    )

pub export_delivers :
    (layout : Layout) (case_id motion_id : Uuid) (format : Format) (sender : Principal) (db : Db)
    (m : MotionDraft) (v : MotionVersion)
    → find (is_motion sender.organization.id case_id motion_id) db.motion_drafts ≡ some m
    → newest m.id db ≡ some v
    → may_export m.status ≡ true
    → any (is_approval sender.organization.id case_id m.id) db.attorney_reviews ≡ true
    → (request (export layout case_id motion_id format sender) db).0
      ≡ ok (lay_out layout format m.title v.rendered_text)
unfolding export motion_reviewer require_roles get_motion latest_version
export_delivers layout case_id motion_id format sender db m v h k l n = ground arith

-- The rows behind a review under the right PIN.
review_rows :
    (settings : Settings) (now : DateTime) (review_id case_id motion_id : Uuid)
    (payload : MotionReviewCreate) (sender : Principal) (db : Db) (m : MotionDraft)
    → find (is_motion sender.organization.id case_id motion_id) db.motion_drafts ≡ some m
    → payload.review_pin ≡ settings.review_pin
    → let db' =
        (request (review_motion settings now review_id case_id motion_id payload sender) db).1 in
      (db'.motion_drafts
        ≡ update_where
            (λ r. r.id == m.id)
            (λ _. record m { status = decided payload.decision })
            db.motion_drafts)
      × (db'.motion_versions ≡ db.motion_versions)
      × (any (is_approval sender.organization.id case_id m.id) db'.attorney_reviews
          ≡ any (is_approval sender.organization.id case_id m.id) (
              db.attorney_reviews
              ++ record {
                id = review_id;
                organization_id = sender.organization.id;
                case_id = case_id;
                motion_draft_id = some m.id;
                reviewer_user_id = sender.user.id;
                decision = payload.decision;
                comments = payload.comments;
                review_pin_verified = true;
                reviewed_at = some now;
              }
                ∷ []))
unfolding review_motion motion_reviewer require_roles get_motion
review_rows settings now review_id case_id motion_id payload sender db m h pin = (
  ground (arith, eq_iff payload.review_pin settings.review_pin),
  ground (arith, eq_iff payload.review_pin settings.review_pin),
  ground (arith, eq_iff payload.review_pin settings.review_pin),
)

-- The review does not ask for the checks: for any motion of the organisation with a version, one
-- whose newest version has not passed the Citation Firewall included, and in any status, an
-- approval under the right PIN succeeds, and the export that follows it delivers that version.
pub review_bypasses_firewall :
    (settings : Settings) (layout : Layout) (now : DateTime) (review_id case_id motion_id : Uuid)
    (payload : MotionReviewCreate) (format : Format) (sender : Principal) (db : Db)
    (m : MotionDraft) (v : MotionVersion)
    → find (is_motion sender.organization.id case_id motion_id) db.motion_drafts ≡ some m
    → newest m.id db ≡ some v
    → has_passed v.citation_check_status ≡ false
    → payload.review_pin ≡ settings.review_pin
    → payload.decision ≡ Decision.approved
    → let approved =
        (request (review_motion settings now review_id case_id motion_id payload sender) db).1 in
      (request (export layout case_id motion_id format sender) approved).0
      ≡ ok (lay_out layout format m.title v.rendered_text)
review_bypasses_firewall settings layout now review_id case_id motion_id payload format sender db m
      v h k unchecked pin approve =
    let approved =
      (request (review_motion settings now review_id case_id motion_id payload sender) db).1 in
    let (drafts, versions, reviews) =
      review_rows settings now review_id case_id motion_id payload sender db m h pin in
    let m' = record m { status = decided payload.decision } in
    let fits =
      find_holds (is_motion sender.organization.id case_id motion_id) db.motion_drafts m h in
    let found : find (is_motion sender.organization.id case_id motion_id) approved.motion_drafts
        ≡ some m' =
      rw drafts (
        find-update_where (is_motion sender.organization.id case_id motion_id) (λ r. r.id == m.id)
          m' db.motion_drafts m h (ground arith) (ground arith)) in
    export_delivers layout case_id motion_id format sender approved m' v found (rw versions k)
      (rw approve refl)
      (rw reviews (
        any-append_right (is_approval sender.organization.id case_id m.id) db.attorney_reviews _
          (rw approve (ground arith))))
