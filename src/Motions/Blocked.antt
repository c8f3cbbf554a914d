-- ===== src/Motions/Blocked.antt =====
-- A motion that may not be exported stays so until it is reviewed again.
use legal_bridge.Prelude.{
  Bool, true, false, some, List, [], ◌∷◌, ◌≡◌, refl, inl, inr, ◌==◌, arith, find, All, All-append,
  update_where, subst, sym, ◌∙◌, Bool-cases,
}
use legal_bridge.Store.Schema.{Uuid, MotionDraft, Db}
use legal_bridge.Store.Tables.{All-update_where}
use legal_bridge.Config.{Settings}
use legal_bridge.Auth.Principal.{Principal}
use legal_bridge.Motions.Drafting.{is_motion}
use legal_bridge.Motions.Review.{Layout, may_export}
use legal_bridge.Motions.Effects.{
  MotionRequest, Effect, nothing, drafted, versioned, checked, submitted, reviewed, exported,
}
use legal_bridge.Motions.Routes.{perform, perform-Effect}
use legal_bridge.Motions.Invariants.{serve}

-- Does the request review this motion?
abbrev pub is_review_of : Uuid → MotionRequest → Bool
is_review_of id (MotionRequest.create _ _ _ _) = false
is_review_of id (MotionRequest.add _ _ _ _) = false
is_review_of id (MotionRequest.cite _ _) = false
is_review_of id (MotionRequest.audit _ _) = false
is_review_of id (MotionRequest.submit _ _) = false
is_review_of id (MotionRequest.review _ _ _ motion_id _) = motion_id == id
is_review_of id (MotionRequest.send _ _ _) = false

-- The row may not be exported, if it is the motion's.
abbrev pub Held : Uuid → MotionDraft → Type 0
Held id m = m.id == id ≡ true → may_export m.status ≡ false

abbrev pub Blocked : Uuid → Db → Type 0
Blocked id db = All (Held id) db.motion_drafts

pub All-find :
    (P : MotionDraft → Type 0) (p : MotionDraft → Bool) (ms : List MotionDraft) (m : MotionDraft)
    → All P ms
    → find p ms ≡ some m
    → P m
All-find P p [] m h e = ground arith
All-find P p (x ∷ ms) m h e = elim (Bool-cases (p x)) [
  | inl here ↦ let same : x ≡ m = ground arith in rw (← same) h.0
  | inr other ↦ All-find P p ms m h.1 (ground arith)
]

-- Rows are rewritten, and those that are not have the property anyway.
pub All-updated :
    (P : MotionDraft → Type 0) (p : MotionDraft → Bool) (m : MotionDraft) (ms : List MotionDraft)
    → P m
    → ((r : MotionDraft) → p r ≡ false → P r)
    → All P (update_where p (λ _. m) ms)
All-updated P p m [] h k = tt
All-updated P p m (x ∷ ms) h k = elim (Bool-cases (p x)) [
  | inl here ↦ rw here (h, All-updated P p m ms h k)
  | inr other ↦ rw other (k x other, All-updated P p m ms h k)
]

Held-save :
    (id : Uuid) (m : MotionDraft) (ms : List MotionDraft)
    → All (Held id) ms
    → Held id m
    → All (Held id) (update_where (λ r. r.id == m.id) (λ _. m) ms)
Held-save id m ms h k =
    All-update_where (Held id) (Held id) (λ r. r.id == m.id) (λ _. m) ms h (λ _ _ _. k) (λ _ _ p. p)

Effect-Blocked :
    (id : Uuid) (settings : Settings) (q : MotionRequest) (sender : Principal) (db db' : Db)
    → is_review_of id q ≡ false
    → Effect settings q sender db db'
    → Blocked id db
    → Blocked id db'
Effect-Blocked id settings q sender db db' n (nothing e) h = rw e h
Effect-Blocked id settings q sender db db' n (drafted m v _ _ _ _ is_draft _ _ _ _ e) h =
    rw e (All-append _ db.motion_drafts (m ∷ []) h ((λ same. ground arith), tt))
Effect-Blocked id settings q sender db db' n (versioned m _ v _ _ _ _ _ _ _ _ _ e) h =
    rw e (Held-save id _ db.motion_drafts h (λ same. refl))
Effect-Blocked id settings q sender db db' n (checked _ _ _ _ _ _ _ _ _ _ e) h = rw e h
Effect-Blocked id settings q sender db db' n (submitted m _ _ _ _ _ _ _ e) h =
    rw e (Held-save id _ db.motion_drafts h (λ same. refl))
Effect-Blocked id settings q sender db db' n
      (reviewed m r _ _ (_, _, _, motion_id, _, asked, _, names, _, _) _ of_m _ _ _ e) h =
    let other : motion_id == id ≡ false = subst (λ a. is_review_of id a ≡ false) asked n in
    let same_id : some motion_id ≡ some m.id = sym names ∙ of_m in
    rw e (Held-save id _ db.motion_drafts h (λ same. ground arith))
Effect-Blocked id settings q sender db db' n
      (exported m _ _ _ (case_id, motion_id, found) _ allowed _ e) h =
    let held =
      All-find (Held id) (is_motion sender.organization.id case_id motion_id) db.motion_drafts m h
        found in
    rw e (Held-save id _ db.motion_drafts h (λ same. ground (arith, held same)))

pub serve-Blocked :
    (id : Uuid) (settings : Settings) (layout : Layout)
    (requests : List (Principal × MotionRequest)) (db : Db)
    → All (λ q. is_review_of id q.1 ≡ false) requests
    → Blocked id db
    → Blocked id (serve settings layout requests db)
unfolding serve
serve-Blocked id settings layout [] db n h = h
serve-Blocked id settings layout ((sender, r) ∷ rest) db n h =
    serve-Blocked id settings layout rest (perform settings layout r sender db) n.1
      (Effect-Blocked id settings r sender db _ n.0 (perform-Effect settings layout r sender db) h)
