-- ===== src/Motions/Invariants.antt =====
-- Invariants of the motion tables under any sequence of requests, by cases on the step relation.
use legal_bridge.Prelude.{
  Mem, All-append, Bool, true, List, [], ◌∷◌, ◌++◌, ◌≡◌, ◌≢◌, ◌⊎◌, inl, inr, ◌==◌, arith, any, All,
  update_where,
}
use legal_bridge.Store.Schema.{MotionStatus, MotionDraft, AttorneyReview, Decision, AuditEvent, Db}
use legal_bridge.Store.Tables.{All-update_where}
use legal_bridge.Config.{Settings}
use legal_bridge.Auth.Principal.{Principal}
use legal_bridge.Motions.Review.{Layout, is_approval, may_export, decided}
use legal_bridge.Motions.Effects.{
  MotionRequest, Effect, nothing, drafted, versioned, checked, submitted, reviewed, exported,
  BySender, UnderPin,
}
use legal_bridge.Motions.Routes.{perform, perform-Effect}

-- A session of the service: requests, one after the other, each with who sends it.
unfoldable pub serve : Settings → Layout → List (Principal × MotionRequest) → Db → Db
serve settings layout [] db = db
serve settings layout ((sender, r) ∷ rest) db =
    serve settings layout rest (perform settings layout r sender db)

-- An approval of the motion under the review PIN is on record.
abbrev pub HasApproval : List AttorneyReview → MotionDraft → Type 0
HasApproval reviews m =
    may_export m.status ≡ true → any (is_approval m.organization_id m.case_id m.id) reviews ≡ true

-- Every motion that is approved or exported has an approval.
abbrev pub AllApproved : Db → Type 0
AllApproved db = All (HasApproval db.attorney_reviews) db.motion_drafts

pub any-append_right :
    (p : AttorneyReview → Bool) (xs : List AttorneyReview) (r : AttorneyReview)
    → p r ≡ true
    → any p (xs ++ r ∷ []) ≡ true
any-append_right p [] r h = ground arith
any-append_right p (x ∷ xs) r h = ground (arith, any-append_right p xs r h)

-- A motion's row is rewritten, by one that has what every motion has.
All-save :
    (P : MotionDraft → Type 0) (m : MotionDraft) (ms : List MotionDraft)
    → All P ms
    → P m
    → All P (update_where (λ r. r.id == m.id) (λ _. m) ms)
All-save P m ms h k =
    All-update_where P P (λ r. r.id == m.id) (λ _. m) ms h (λ _ _ _. k) (λ _ _ p. p)

-- The review is what one of the requests asks for, under the review PIN and by who sent it.
abbrev pub UnderRequest : Settings → List (Principal × MotionRequest) → AttorneyReview → Type 0
UnderRequest settings requests entry =
    (sender : Principal) × (r : MotionRequest) × Mem (sender, r) requests
    × UnderPin settings r sender entry

-- No motion has the status that the dashboard counts as awaiting review.
abbrev pub NoneSubmitted : Db → Type 0
NoneSubmitted db = All (λ m. m.status ≢ MotionStatus.submitted_for_review) db.motion_drafts

decided-ne-submitted : (d : Decision) → decided d ≢ MotionStatus.submitted_for_review
decided-ne-submitted Decision.changes_requested e = cc
decided-ne-submitted Decision.approved e = cc
decided-ne-submitted Decision.rejected e = cc

Effect-NoneSubmitted :
    (settings : Settings) (q : MotionRequest) (sender : Principal) (db db' : Db)
    → Effect settings q sender db db'
    → NoneSubmitted db
    → NoneSubmitted db'
Effect-NoneSubmitted settings q sender db db' (nothing e) h = rw e h
Effect-NoneSubmitted settings q sender db db' (drafted m v _ _ _ _ is_draft _ _ _ _ e) h =
    rw e (All-append _ db.motion_drafts (m ∷ []) h ((λ s. cc), tt))
Effect-NoneSubmitted settings q sender db db' (versioned m _ v _ _ _ _ _ _ _ _ _ e) h =
    rw e (All-save _ _ db.motion_drafts h (λ s. cc))
Effect-NoneSubmitted settings q sender db db' (checked _ _ _ _ _ _ _ _ _ _ e) h = rw e h
Effect-NoneSubmitted settings q sender db db' (submitted m _ _ _ _ _ _ _ e) h =
    rw e (All-save _ _ db.motion_drafts h (λ s. cc))
Effect-NoneSubmitted settings q sender db db' (reviewed m r _ _ _ _ _ _ _ _ e) h =
    rw e (All-save _ _ db.motion_drafts h (decided-ne-submitted r.decision))
Effect-NoneSubmitted settings q sender db db' (exported m _ _ _ _ _ _ _ e) h =
    rw e (All-save _ _ db.motion_drafts h (λ s. cc))

pub serve-NoneSubmitted :
    (settings : Settings) (layout : Layout) (requests : List (Principal × MotionRequest)) (db : Db)
    → NoneSubmitted db
    → NoneSubmitted (serve settings layout requests db)
unfolding serve
serve-NoneSubmitted settings layout [] db h = h
serve-NoneSubmitted settings layout ((sender, r) ∷ rest) db h =
    serve-NoneSubmitted settings layout rest (perform settings layout r sender db)
      (Effect-NoneSubmitted settings r sender db _ (perform-Effect settings layout r sender db) h)

-- A motion request changes nothing, or it adds exactly one audit event, in the sender's name and
-- organisation; no event is changed or removed.
pub motion_requests_audited :
    (settings : Settings) (layout : Layout) (r : MotionRequest) (sender : Principal) (db : Db)
    → let db' = perform settings layout r sender db in
      (db' ≡ db)
      ⊎ ((e : AuditEvent) × (BySender sender e) × (db'.audit_events ≡ db.audit_events ++ e ∷ []))
motion_requests_audited settings layout r sender db =
    audited (perform-Effect settings layout r sender db)
  where
    audited :
        {db' : Db}
        → Effect settings r sender db db'
        → (db' ≡ db)
          ⊎ ((e : AuditEvent) × (BySender sender e)
              × (db'.audit_events ≡ db.audit_events ++ e ∷ []))
    audited (nothing e) = inl e
    audited (drafted _ _ a b _ _ _ _ _ _ _ e) = inr (a, b, rw e)
    audited (versioned _ _ _ a b _ _ _ _ _ _ _ e) = inr (a, b, rw e)
    audited (checked _ _ _ _ _ a b _ _ _ e) = inr (a, b, rw e)
    audited (submitted _ _ a b _ _ _ _ e) = inr (a, b, rw e)
    audited (reviewed _ _ a b _ _ _ _ _ _ e) = inr (a, b, rw e)
    audited (exported _ _ a b _ _ _ _ e) = inr (a, b, rw e)
