-- ===== src/Analysis/Contradictions/Complete.antt =====
-- What the contradictions say of the observations, and that none is missed.
use legal_bridge.Prelude.{
  any-append, String, Bool, true, false, Option, none, some, List, [], ◌∷◌, ◌≡◌, inl, inr, refl,
  sym, subst, ◌∙◌, ◌||◌, any, All, text_eq, text_eq_self, text_eq→≡, Bool-cases, if-cases, if-both,
  All-append, is_some, ◌≢◌, or_left, or_right,
}
use mathlib.Core.Bool.{false≢true}
use legal_bridge.Store.Schema.{Text}
use legal_bridge.Analysis.Patterns.{Python}
use legal_bridge.Analysis.Observations.{SourceObservation, titled, contradiction_titles}
use legal_bridge.Analysis.Contradictions.{
  group, keys, Contradiction, distinct_values, between, contradictions_of, find_contradictions,
}
use legal_bridge.Analysis.Contradictions.Members.{
  In, In-group, group-In, only, or_swap, or_false_right, or_false_left, keys-cover,
}

module _ (python : Python) where
  abbrev folded : SourceObservation → Text
  folded o = python.casefold o.value

  abbrev Kept : List Text → List SourceObservation → SourceObservation → Type 0
  Kept seen os o = In o os × (any (text_eq (folded o)) seen ≡ false)

  distinct-cover :
      (o : SourceObservation) (seen : List Text) (os : List SourceObservation)
      → In o os
      → (any (text_eq (folded o)) seen
          || any (λ d. text_eq (folded o) (folded d)) (distinct_values python seen os))
        ≡ true
  unfolding distinct_values
  distinct-cover o seen [] h = elim h [ ]
  distinct-cover o seen (x ∷ os) (inl e) =
      if-cases
        (λ ds.
          (any (text_eq (folded o)) seen || any (λ d. text_eq (folded o) (folded d)) ds) ≡ true)
        (any (text_eq (folded x)) seen)
        (λ s. or_left _ _ (subst (λ z. any (text_eq (folded z)) seen ≡ true) (sym e) s))
        (λ s. or_right _ _ (
          or_left _ _
            (subst (λ z. text_eq (folded o) (folded z) ≡ true) e (text_eq_self (folded o)))))
  distinct-cover o seen (x ∷ os) (inr h) =
      if-both
        (λ ds.
          (any (text_eq (folded o)) seen || any (λ d. text_eq (folded o) (folded d)) ds) ≡ true)
        (any (text_eq (folded x)) seen) (distinct-cover o seen os h)
        (or_swap (text_eq (folded o) (folded x)) _ _ (distinct-cover o (folded x ∷ seen) os h))

  Kept-weaken :
      (seen : List Text) (x : SourceObservation) (v : Text) (os ds : List SourceObservation)
      → All (Kept (v ∷ seen) os) ds
      → All (Kept seen (x ∷ os)) ds
  Kept-weaken seen x v os [] h = tt
  Kept-weaken seen x v os (d ∷ ds) h = (
    (inr h.0.0, or_false_right (text_eq (folded d) v) (any (text_eq (folded d)) seen) h.0.1),
    Kept-weaken seen x v os ds h.1,
  )

  Kept-later :
      (seen : List Text) (x : SourceObservation) (os ds : List SourceObservation)
      → All (Kept seen os) ds
      → All (Kept seen (x ∷ os)) ds
  Kept-later seen x os [] h = tt
  Kept-later seen x os (d ∷ ds) h = ((inr h.0.0, h.0.1), Kept-later seen x os ds h.1)

  distinct-Kept :
      (seen : List Text) (os : List SourceObservation)
      → All (Kept seen os) (distinct_values python seen os)
  unfolding distinct_values
  distinct-Kept seen [] = tt
  distinct-Kept seen (x ∷ os) =
      if-cases (All (Kept seen (x ∷ os))) (any (text_eq (folded x)) seen)
        (λ e. Kept-later seen x os (distinct_values python seen os) (distinct-Kept seen os))
        (λ e. (
          (inl refl, e),
          Kept-weaken seen x (folded x) os (distinct_values python (folded x ∷ seen) os)
              (distinct-Kept (folded x ∷ seen) os),
        ))

  -- Of two observations that are kept, the values differ.
  abbrev Apart : List SourceObservation → Type 0
  Apart [] = Unit
  Apart (d ∷ ds) = All (λ e. text_eq (folded e) (folded d) ≡ false) ds × Apart ds

  Kept-apart :
      (seen : List Text) (x : SourceObservation) (os ds : List SourceObservation)
      → All (Kept (folded x ∷ seen) os) ds
      → All (λ e. text_eq (folded e) (folded x) ≡ false) ds
  Kept-apart seen x os [] h = tt
  Kept-apart seen x os (d ∷ ds) h = (
    or_false_left (text_eq (folded d) (folded x)) (any (text_eq (folded d)) seen) h.0.1,
    Kept-apart seen x os ds h.1,
  )

  distinct-Apart :
      (seen : List Text) (os : List SourceObservation) → Apart (distinct_values python seen os)
  unfolding distinct_values
  distinct-Apart seen [] = tt
  distinct-Apart seen (x ∷ os) =
      if-both Apart (any (text_eq (folded x)) seen) (distinct-Apart seen os) (
        Kept-apart seen x os (distinct_values python (folded x ∷ seen) os)
            (distinct-Kept (folded x ∷ seen) os),
        distinct-Apart (folded x ∷ seen) os,
      )

  differ : (v w : Text) → text_eq v w ≡ false → v ≢ w
  differ v w e q = false≢true (sym e ∙ subst (λ u. text_eq v u ≡ true) q (text_eq_self v))

  -- A contradiction names two observations of its key with different values, and has its title.
  abbrev pub IsSound : List SourceObservation → Contradiction → Type 0
  IsSound os c =
      In c.source_a os
      × In c.source_b os
      × (c.source_a.key ≡ c.key)
      × (c.source_b.key ≡ c.key)
      × (python.casefold c.source_b.value ≢ python.casefold c.source_a.value)
      × (titled c.key contradiction_titles ≡ some c.title)

  between-IsSound :
      (os : List SourceObservation) (key : Text) (title : Option String)
      (ds : List SourceObservation)
      → titled key contradiction_titles ≡ title
      → All (Kept [] (group key os)) ds
      → Apart ds
      → All (IsSound os) (between python key title ds)
  between-IsSound os key none ds e h k = tt
  between-IsSound os key (some title) [] e h k = tt
  between-IsSound os key (some title) (a ∷ []) e h k = tt
  between-IsSound os key (some title) (a ∷ b ∷ r) e h k =
      let (ia, ka) = In-group key a os h.0.0 in
      let (ib, kb) = In-group key b os h.1.0.0 in
      ((ia, ib, ka, kb, differ (folded b) (folded a) k.0.0, e), tt)

  contradictions_of-IsSound :
      (os : List SourceObservation) (ks : List Text)
      → All (IsSound os) (contradictions_of python os ks)
  unfolding contradictions_of
  contradictions_of-IsSound os [] = tt
  contradictions_of-IsSound os (key ∷ ks) =
      let ds = distinct_values python [] (group key os) in
      All-append (IsSound os) (between python key (titled key contradiction_titles) ds)
        (contradictions_of python os ks)
        (between-IsSound os key (titled key contradiction_titles) ds refl
          (distinct-Kept [] (group key os)) (distinct-Apart [] (group key os)))
        (contradictions_of-IsSound os ks)

  -- Every contradiction that is found names two of the observations, both of its key, whose values
  -- differ also without regard to case, and has the title of the key.
  pub find_contradictions-IsSound :
      (os : List SourceObservation) → All (IsSound os) (find_contradictions python os)
  unfolding find_contradictions
  find_contradictions-IsSound os = contradictions_of-IsSound os (keys [] os)

  abbrev pub of_key : Text → Contradiction → Bool
  of_key key c = text_eq key c.key

  between_some :
      (key : Text) (title : Option String) (v w : Text) (ds : List SourceObservation)
      → is_some title ≡ true
      → text_eq v w ≡ false
      → any (λ d. text_eq v (folded d)) ds ≡ true
      → any (λ d. text_eq w (folded d)) ds ≡ true
      → any (of_key key) (between python key title ds) ≡ true
  between_some key none v w ds t e h k = cc
  between_some key (some title) v w [] t e h k = cc
  between_some key (some title) v w (d ∷ []) t e h k = absurd (
      differ v w e (
        text_eq→≡ v (folded d) (only (text_eq v (folded d)) h)
        ∙ sym (text_eq→≡ w (folded d) (only (text_eq w (folded d)) k))))
  between_some key (some title) v w (a ∷ b ∷ r) t e h k = or_left _ _ (text_eq_self key)

  contradictions_of-any :
      (os : List SourceObservation) (a b : SourceObservation) (ks : List Text)
      → In a os
      → In b os
      → b.key ≡ a.key
      → text_eq (folded a) (folded b) ≡ false
      → is_some (titled a.key contradiction_titles) ≡ true
      → any (text_eq a.key) ks ≡ true
      → any (of_key a.key) (contradictions_of python os ks) ≡ true
  unfolding contradictions_of
  contradictions_of-any os a b [] i j s d t h = cc
  contradictions_of-any os a b (key ∷ ks) i j s d t h =
      let found : Text → List Contradiction = λ k.
        between python k (titled k contradiction_titles) (distinct_values python [] (group k os)) in
      let here : any (of_key a.key) (found a.key) ≡ true =
        between_some a.key (titled a.key contradiction_titles) (folded a) (folded b)
          (distinct_values python [] (group a.key os)) t d
          (distinct-cover a [] (group a.key os) (group-In a os i))
          (distinct-cover b [] (group a.key os)
            (subst (λ k. In b (group k os)) s (group-In b os j))) in
      any-append (of_key a.key) (found key) (contradictions_of python os ks)
      ∙ elim (Bool-cases (text_eq a.key key)) [
        | inl e ↦
            or_left _ _
              (subst (λ k. any (of_key a.key) (found k) ≡ true) (text_eq→≡ a.key key e) here)
        | inr e ↦ or_right _ _ (
            contradictions_of-any os a b ks i j s d t
              (subst (λ q. (q || any (text_eq a.key) ks) ≡ true) e h))
      ]

  -- No contradiction is missed: where two observations share a key that has a title, and their values
  -- differ also without regard to case, a contradiction of that key is found.
  pub find_contradictions_complete :
      (os : List SourceObservation) (a b : SourceObservation)
      → In a os
      → In b os
      → b.key ≡ a.key
      → python.casefold a.value ≢ python.casefold b.value
      → is_some (titled a.key contradiction_titles) ≡ true
      → any (of_key a.key) (find_contradictions python os) ≡ true
  unfolding find_contradictions
  find_contradictions_complete os a b i j s d t =
      elim (Bool-cases (text_eq (folded a) (folded b))) [
        | inl e ↦ absurd (d (text_eq→≡ (folded a) (folded b) e))
        | inr e ↦ contradictions_of-any os a b (keys [] os) i j s e t (keys-cover a [] os i)
      ]
