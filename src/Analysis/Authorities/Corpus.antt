-- ===== src/Analysis/Authorities/Corpus.antt =====
-- What `ensure_synthetic_authorities` leaves.
use legal_bridge.Prelude.{
  filter-append, ◌||◌, ℕ, ◌+◌, String, Bool, true, false, List, [], ◌∷◌, ◌++◌, ◌≡◌, refl, sym, ap,
  subst, ◌∙◌, arith, append-nil, any, any-append, any-sort_by, filter, sort_by, text_eq,
  text_eq_self, text_eq→≡, if-both, if-cases, or_left, or_right, ==_self,
}
use legal_bridge.Store.Schema.{Uuid, LegalAuthority, Db}
use legal_bridge.Analysis.Patterns.{Python}
use legal_bridge.Analysis.Authorities.{
  authority_topics, authority_citation, is_synthetic_demo, citation_le, cites_as, new_authority,
  missing_authorities, existing_authorities, ensure_synthetic_authorities,
}

-- Two tests that no row passes both are passed by two rows.
pub two_rows {ℓ} :
    {A : Type ℓ} (p q : A → Bool) (xs : List A)
    → ((a : A) → p a ≡ true → q a ≡ false)
    → any p xs ≡ true
    → any q xs ≡ true
    → (a : A) × (b : A) × (rest : List A) × (xs ≡ a ∷ b ∷ rest)
two_rows p q [] d h k = absurd (ground arith)
two_rows p q (a ∷ []) d h k = absurd (ground (arith, d a))
two_rows p q (a ∷ b ∷ rest) d h k = (a, b, rest, refl)

abbrev cites_number : ℕ → LegalAuthority → Bool
cites_number n = cites_as (authority_citation n)

-- Whether every topic, counted from this index on, has its authority.
abbrev pub Covers : ℕ → List String → List LegalAuthority → Type 0
Covers index [] authorities = Unit
Covers index (topic ∷ topics) authorities =
    (any (cites_as (authority_citation index)) authorities ≡ true)
    × Covers (index + 1) topics authorities

Covers-more :
    (index : ℕ) (topics : List String) (xs ys : List LegalAuthority)
    → ((n : ℕ) → any (cites_number n) xs ≡ true → any (cites_number n) ys ≡ true)
    → Covers index topics xs
    → Covers index topics ys
Covers-more index [] xs ys h c = tt
Covers-more index (topic ∷ topics) xs ys h c =
    (h index c.0, Covers-more (index + 1) topics xs ys h c.1)

module _ (python : Python) (organization_id : Uuid) (fresh : ℕ → Uuid) where
  one_more :
      (existing rest : List LegalAuthority) (a : LegalAuthority) (n : ℕ)
      → any (cites_number n) (existing ++ rest) ≡ true
      → any (cites_number n) (existing ++ a ∷ rest) ≡ true
  one_more existing rest a n h =
      any-append (cites_number n) existing (a ∷ rest)
      ∙ ground (arith, h, sym (any-append (cites_number n) existing rest))

  missing_authorities-Covers :
      (existing : List LegalAuthority) (index : ℕ) (topics : List String)
      → Covers index topics
          (existing ++ missing_authorities python organization_id fresh existing index topics)
  unfolding missing_authorities
  missing_authorities-Covers existing index [] = tt
  missing_authorities-Covers existing index (topic ∷ topics) =
      let rest = missing_authorities python organization_id fresh existing (index + 1) topics in
      let a = new_authority python organization_id (fresh index) index topic in
      let later = missing_authorities-Covers existing (index + 1) topics in
      if-cases (λ added. Covers index (topic ∷ topics) (existing ++ added))
        (any (cites_number index) existing)
        (λ e. (any-append (cites_number index) existing rest ∙ or_left _ _ e, later))
        (λ e. (
          any-append (cites_number index) existing (a ∷ rest)
              ∙ or_right _ _ (or_left _ _ (text_eq_self (authority_citation index))),
          Covers-more (index + 1) topics (existing ++ rest) (existing ++ a ∷ rest)
              (one_more existing rest a) later,
        ))

  none_missing :
      (existing : List LegalAuthority) (index : ℕ) (topics : List String)
      → Covers index topics existing
      → missing_authorities python organization_id fresh existing index topics ≡ []
  unfolding missing_authorities
  none_missing existing index [] c = refl
  none_missing existing index (topic ∷ topics) c =
      rw (c.0, none_missing existing (index + 1) topics c.1) refl

  missing_synthetic :
      (existing : List LegalAuthority) (index : ℕ) (topics : List String)
      → filter
          (is_synthetic_demo organization_id)
          (missing_authorities python organization_id fresh existing index topics)
        ≡ missing_authorities python organization_id fresh existing index topics
  unfolding missing_authorities
  missing_synthetic existing index [] = refl
  missing_synthetic existing index (topic ∷ topics) =
      if-both (λ added. filter (is_synthetic_demo organization_id) added ≡ added)
        (any (cites_number index) existing) (missing_synthetic existing (index + 1) topics)
        (ground (arith, ==_self organization_id, missing_synthetic existing (index + 1) topics))

module _ (python : Python) (organization_id : Uuid) where
  -- What the authorities returned cite, the stored ones do.
  cites_seeded :
      (fresh : ℕ → Uuid) (db : Db) (n : ℕ)
      → any (cites_number n) (ensure_synthetic_authorities python organization_id fresh db).0
        ≡ any (cites_number n) (
            existing_authorities python organization_id
              (ensure_synthetic_authorities python organization_id fresh db).1)
  unfolding ensure_synthetic_authorities
  cites_seeded fresh db n =
      let demo = is_synthetic_demo organization_id in
      let existing = existing_authorities python organization_id db in
      let missing = missing_authorities python organization_id fresh existing 1 authority_topics in
      any-sort_by citation_le (cites_number n) (existing ++ missing)
      ∙ any-append (cites_number n) existing missing
      ∙ ap (λ b. b || any (cites_number n) missing)
          (any-sort_by citation_le (cites_number n) (filter demo db.authorities))
      ∙ sym (any-append (cites_number n) (filter demo db.authorities) missing)
      ∙ ap (λ ms. any (cites_number n) (filter demo db.authorities ++ ms))
          (sym (missing_synthetic python organization_id fresh existing 1 authority_topics))
      ∙ ap (any (cites_number n)) (sym (filter-append demo db.authorities missing))
      ∙ sym (any-sort_by citation_le (cites_number n) (filter demo (db.authorities ++ missing)))

  -- The authorities returned cover the topics.
  pub ensure_synthetic_authorities-Covers :
      (fresh : ℕ → Uuid) (db : Db)
      → Covers 1 authority_topics (ensure_synthetic_authorities python organization_id fresh db).0
  unfolding ensure_synthetic_authorities
  ensure_synthetic_authorities-Covers fresh db =
      let existing = existing_authorities python organization_id db in
      let missing = missing_authorities python organization_id fresh existing 1 authority_topics in
      Covers-more 1 authority_topics (existing ++ missing)
        (sort_by citation_le (existing ++ missing))
        (λ n h. any-sort_by citation_le (cites_number n) (existing ++ missing) ∙ h)
        (missing_authorities-Covers python organization_id fresh existing 1 authority_topics)

  -- The corpus is seeded once: after a call each of the twenty topics has its authority among those
  -- returned, and a further call, whatever its identifiers, changes no row.
  pub authorities_seeded_once :
      (fresh fresh' : ℕ → Uuid) (db : Db)
      → let seeded = ensure_synthetic_authorities python organization_id fresh db in
        Covers 1 authority_topics seeded.0
        × ((ensure_synthetic_authorities python organization_id fresh' seeded.1).1 ≡ seeded.1)
  unfolding ensure_synthetic_authorities
  authorities_seeded_once fresh fresh' db =
      let seeded = ensure_synthetic_authorities python organization_id fresh db in
      let covered = ensure_synthetic_authorities-Covers fresh db in
      (
        covered,
        ap (λ ms. record seeded.1 { authorities = seeded.1.authorities ++ ms })
              (none_missing python organization_id fresh'
                (existing_authorities python organization_id seeded.1) 1 authority_topics
                (Covers-more 1 authority_topics seeded.0
                  (existing_authorities python organization_id seeded.1)
                  (λ n h. sym (cites_seeded fresh db n) ∙ h) covered))
            ∙ ap (λ as'. record seeded.1 { authorities = as' }) (append-nil seeded.1.authorities),
      )

  -- There are two at least.
  pub two_authorities :
      (fresh : ℕ → Uuid) (db : Db)
      → (a : LegalAuthority) × (b : LegalAuthority) × (rest : List LegalAuthority)
        × ((ensure_synthetic_authorities python organization_id fresh db).0 ≡ a ∷ b ∷ rest)
  two_authorities fresh db =
      let covered = ensure_synthetic_authorities-Covers fresh db in
      two_rows (cites_number 1) (cites_number 2)
        (ensure_synthetic_authorities python organization_id fresh db).0
        (λ a h.
          subst (λ t. text_eq (authority_citation 2) t ≡ false)
            (text_eq→≡ (authority_citation 1) a.citation h) refl)
        covered.0 covered.1.0
