-- ===== src/Motions/History.antt =====
-- The versions of a motion are never rewritten: only their check columns change.
use legal_bridge.Prelude.{
  ℕ, Bool, none, some, List, [], ◌∷◌, ◌++◌, ◌≡◌, refl, ◌==◌, arith, find, filter, greatest, map,
  leb, update_where, ◌⊎◌, inl, inr, Bool-cases, Option-cases,
}
use mathlib.Core.List.{map-append}
use legal_bridge.Store.Schema.{MotionVersion, CitationStatus, EthicsStatus, Db}
use legal_bridge.Store.Tables.{Distinct, find_misses, update_where-none}
use legal_bridge.Config.{Settings}
use legal_bridge.Auth.Principal.{Principal}
use legal_bridge.Motions.Review.{Layout}
use legal_bridge.Motions.Effects.{
  MotionRequest, Effect, nothing, drafted, versioned, checked, submitted, reviewed, exported,
}
use legal_bridge.Motions.Routes.{perform, perform-Effect}

abbrev pub version_key : MotionVersion → ℕ
version_key v = v.id

-- What a version says: all of its row but the two check columns.
abbrev pub said : MotionVersion → MotionVersion
said v = record v {
  citation_check_status = CitationStatus.pending;
  ethics_check_status = EthicsStatus.pending;
}

-- A version that is the newest of some is found by its key.
greatest_found :
    (p : MotionVersion → Bool) (vs : List MotionVersion) (v : MotionVersion)
    → Distinct version_key vs
    → greatest (λ a b. leb b.version_number a.version_number) (filter p vs) ≡ some v
    → find (λ u. version_key u == v.id) vs ≡ some v
greatest_found p [] v d h = cc
greatest_found p (x ∷ vs) v d h =
    let ih = greatest_found p vs v d.1 in
    let misses = find_misses (λ u. version_key u == x.id) (λ u. version_key u == v.id) vs v d.0 in
    elim (Option-cases (greatest (λ a b. leb b.version_number a.version_number) (filter p vs))) [
      | inl alone ↦ ground (arith, ih, misses)
      | inr (w, e) ↦ ground (arith, ih, misses)
    ]

-- Rewriting the check columns of a version that is found by its key leaves what all versions say.
said-save :
    (vs : List MotionVersion) (v v' : MotionVersion)
    → Distinct version_key vs
    → find (λ u. version_key u == v.id) vs ≡ some v
    → v'.id ≡ v.id
    → said v' ≡ said v
    → map said (update_where (λ u. u.id == v'.id) (λ _. v') vs) ≡ map said vs
said-save [] v v' d h e f = refl
said-save (x ∷ vs) v v' d h e f = elim (Bool-cases (x.id == v.id)) [
  | inl here ↦
      let first : x ≡ v = ground arith in
      let absent : find (λ (u : MotionVersion). u.id == v'.id) vs ≡ none = rw (e, ← first) d.0 in
      ground (arith, update_where-none (λ (u : MotionVersion). u.id == v'.id) (λ _. v') vs absent)
  | inr other ↦ ground (arith, said-save vs v v' d.1)
]

-- Whatever is requested on motions, what the stored versions say, their numbers, contents and
-- rendered texts, stays as it is, in order, and at most one version is added behind them, where
-- versions have a primary key.
pub versions_append_only :
    (settings : Settings) (layout : Layout) (r : MotionRequest) (sender : Principal) (db : Db)
    → Distinct version_key db.motion_versions
    → let db' = perform settings layout r sender db in
      (map said db'.motion_versions ≡ map said db.motion_versions)
      ⊎ ((v : MotionVersion) × (map said db'.motion_versions
            ≡ map said db.motion_versions ++ said v ∷ []))
versions_append_only settings layout r sender db d =
    kept (perform-Effect settings layout r sender db)
  where
    kept :
        {db' : Db}
        → Effect settings r sender db db'
        → (map said db'.motion_versions ≡ map said db.motion_versions)
          ⊎ ((v : MotionVersion) × (map said db'.motion_versions
                ≡ map said db.motion_versions ++ said v ∷ []))
    kept (nothing e) = inl (rw e)
    kept (drafted m v _ _ _ _ _ _ _ _ _ e) = inr (v, rw (e, map-append) refl)
    kept (versioned m _ v _ _ _ _ _ _ _ _ _ e) = inr (v, rw (e, map-append) refl)
    kept (checked m v c t _ _ _ _ _ f e) = inl (
        rw e (
          said-save db.motion_versions v
            (record v { citation_check_status = c; ethics_check_status = t }) d
            (greatest_found (λ u. u.motion_draft_id == m.id) db.motion_versions v d f) refl refl))
    kept (submitted _ _ _ _ _ _ _ _ e) = inl (rw e)
    kept (reviewed _ _ _ _ _ _ _ _ _ _ e) = inl (rw e)
    kept (exported _ _ _ _ _ _ _ _ e) = inl (rw e)
