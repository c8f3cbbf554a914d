-- ===== src/Analysis/Routes/Approval.antt =====
-- The motion of a run can be exported at once.
use legal_bridge.Prelude.{
  ℕ, Bool, true, false, Option, none, some, List, [], ◌∷◌, ◌++◌, ◌≡◌, refl, ◌∙◌, arith, any, find,
  filter, filter-append, any-append, or_right, or_left, ◌||◌, greatest, leb, ◌==◌, ==_self,
  Option-cases, Bool-cases, inl, inr,
}
use legal_bridge.Store.Schema.{Uuid, admin, attorney, role_eq, LegalCase, MotionVersion, Db}
use legal_bridge.Store.Session.{ok, request}
use legal_bridge.Store.Tables.{find-append_none}
use legal_bridge.Config.{Settings, Provider}
use legal_bridge.Auth.Principal.{Principal}
use legal_bridge.Cases.{is_case}
use legal_bridge.Motions.Drafting.{is_motion, newest}
use legal_bridge.Motions.Review.{export, Layout, Format, lay_out, is_approval}
use legal_bridge.Motions.Gate.{export_delivers}
use legal_bridge.Analysis.Patterns.{Python}
use legal_bridge.Analysis.Observations.{Source, load_sources}
use legal_bridge.Analysis.Authorities.{ensure_synthetic_authorities, Scores}
use legal_bridge.Analysis.Drafts.{run_motion}
use legal_bridge.Analysis.Rows.{scope_of}
use legal_bridge.Analysis.Run.{with_results, with_motion, with_completion, drafted_version}
use legal_bridge.Analysis.Routes.{Clock, call_of, chosen_provider, create_analysis_run}
use legal_bridge.Analysis.Routes.Completion.{analysed, route_done}

-- Of two versions behind others of other motions, the one with the higher number is the newest.
greatest-none :
    (vs : List MotionVersion)
    → greatest (λ v w. leb w.version_number v.version_number) vs ≡ none
    → vs ≡ []
greatest-none [] h = refl
greatest-none (v ∷ vs) h =
    elim (Option-cases (greatest (λ a b. leb b.version_number a.version_number) vs)) [
      | inl e ↦ absurd (ground arith)
      | inr (w, e) ↦ elim (Bool-cases (leb w.version_number v.version_number)) [
        | inl f ↦ absurd (ground arith)
        | inr f ↦ absurd (ground arith)
      ]
    ]

any-second {ℓ} :
    {A : Type ℓ} (p : A → Bool) (xs : List A) (x y : A)
    → p y ≡ true
    → any p (xs ++ x ∷ y ∷ []) ≡ true
any-second p xs x y h =
    any-append p xs (x ∷ y ∷ [])
    ∙ or_right (any p xs) (any p (x ∷ y ∷ []))
        (or_right (p x) (p y || false) (or_left (p y) false h))

newest_drafted :
    (motion_id : Uuid) (vs : List MotionVersion) (v w : MotionVersion)
    → greatest
        (λ a b. leb b.version_number a.version_number)
        (filter (λ a. a.motion_draft_id == motion_id) vs)
      ≡ none
    → (v.motion_draft_id == motion_id) ≡ true
    → (w.motion_draft_id == motion_id) ≡ true
    → leb w.version_number v.version_number ≡ false
    → greatest
        (λ a b. leb b.version_number a.version_number)
        (filter (λ a. a.motion_draft_id == motion_id) (vs ++ v ∷ w ∷ []))
      ≡ some w
newest_drafted motion_id vs v w h i j k =
    let p : MotionVersion → Bool = λ a. a.motion_draft_id == motion_id in
    rw (filter-append p vs (v ∷ w ∷ []), greatest-none (filter p vs) h, i, j, k) refl

module _ (python : Python) (scores : Scores) (settings : Settings) (layout : Layout) (clock : Clock)
    (case_id : Uuid) (payload : Option Provider) (format : Format) (sender reader : Principal)
    (db : Db) (legal_case : LegalCase) (source : Source) (sources : List Source) where
  -- An analysis approves its own motion: behind a run over stored sources that an administrator or
  -- an attorney starts, under fresh identifiers, every member of the organisation exports the
  -- motion that the run drafted, in either format, although nobody entered the review PIN.
  pub analysis_approves_itself :
      any (role_eq sender.user.role) (admin ∷ attorney ∷ []) ≡ true
      → chosen_provider payload settings.analysis_provider ≡ Provider.deterministic
      → find (is_case sender.organization.id case_id) db.cases ≡ some legal_case
      → load_sources sender.organization.id case_id db ≡ source ∷ sources
      → find (is_motion sender.organization.id case_id (clock.fresh 14)) db.motion_drafts ≡ none
      → newest (clock.fresh 14) db ≡ none
      → reader.organization.id ≡ sender.organization.id
      → let db' =
          (request
            (create_analysis_run python scores settings clock case_id payload sender)
            db).1 in
        (content : List ℕ) × ((request (export layout case_id (clock.fresh 14) format reader) db').0
          ≡ ok content)
  unfolding analysed with_completion with_motion with_results ensure_synthetic_authorities
      drafted_version
  analysis_approves_itself allowed chosen found loaded new unused same =
      let call = call_of clock case_id sender in
      let motion_id = clock.fresh 14 in
      let (a, b, rest, done) =
        route_done python scores settings clock case_id payload sender db legal_case source sources
          allowed chosen found loaded in
      let db' = analysed python scores call db legal_case source sources (a ∷ b ∷ rest) a b in
      let m = run_motion motion_id (scope_of call) legal_case sender.user.id in
      let v = drafted_version python scores call legal_case source sources a b 1 in
      let w = drafted_version python scores call legal_case source sources a b 2 in
      let stored : find (is_motion sender.organization.id case_id motion_id) db'.motion_drafts
          ≡ some m =
        find-append_none (is_motion sender.organization.id case_id motion_id) db.motion_drafts
          (m ∷ []) new
        ∙ ground (arith, ==_self motion_id, ==_self sender.organization.id, ==_self case_id) in
      let drafted : newest motion_id db' ≡ some w =
        newest_drafted motion_id db.motion_versions v w unused (==_self motion_id)
          (==_self motion_id) refl in
      let approved : any (is_approval sender.organization.id case_id motion_id) db'.attorney_reviews
          ≡ true =
        any-second (is_approval sender.organization.id case_id motion_id) db.attorney_reviews _ _
          (ground (arith, ==_self motion_id, ==_self sender.organization.id, ==_self case_id)) in
      (
        lay_out layout format m.title w.rendered_text,
        rw done (
            export_delivers layout case_id motion_id format reader db' m w (rw same stored) drafted
              refl (rw same approved)),
      )
