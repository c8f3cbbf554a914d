-- ===== src/Analysis/Contradictions/Members.antt =====
-- The observations of a list, of a group and of a key.
use legal_bridge.Prelude.{
  Bool, true, false, List, [], ◌∷◌, ◌≡◌, ◌⊎◌, inl, inr, refl, sym, ap, subst, ◌∙◌, ◌||◌, any,
  text_eq, text_eq_self, text_eq→≡, if-cases, if-both, or_left, or_right,
}
use legal_bridge.Store.Schema.{Text}
use legal_bridge.Analysis.Observations.{SourceObservation}
use legal_bridge.Analysis.Contradictions.{has_key, group, keys}

-- The observation is one of the list.
abbrev pub In : SourceObservation → List SourceObservation → Type 0
In o [] = ⊥
In o (x ∷ xs) = (o ≡ x) ⊎ In o xs

pub In-group :
    (key : Text) (o : SourceObservation) (os : List SourceObservation)
    → In o (group key os)
    → In o os × (o.key ≡ key)
In-group key o [] h = elim h [ ]
In-group key o (x ∷ xs) h =
    if-cases (λ l. In o l → In o (x ∷ xs) × (o.key ≡ key)) (has_key key x)
      (λ e k. elim k [
        | inl q ↦ (inl q, ap (λ (z : SourceObservation). z.key) q ∙ text_eq→≡ x.key key e)
        | inr r ↦ let (a, b) = In-group key o xs r in (inr a, b)
      ])
      (λ e k. let (a, b) = In-group key o xs k in (inr a, b)) h

pub group-In :
    (o : SourceObservation) (os : List SourceObservation) → In o os → In o (group o.key os)
group-In o [] h = elim h [ ]
group-In o (x ∷ xs) (inl e) =
    let same : has_key o.key x ≡ true =
      subst (λ (z : SourceObservation). has_key o.key z ≡ true) e (text_eq_self o.key) in
    rw same (inl e)
group-In o (x ∷ xs) (inr h) =
    let later = group-In o xs h in if-both (In o) (has_key o.key x) (inr later) later

pub only : (a : Bool) → (a || false) ≡ true → a ≡ true
only true h = refl
only false h = h

pub or_swap : (a b c : Bool) → ((a || b) || c) ≡ true → (b || (a || c)) ≡ true
or_swap true b c h = or_right b true refl
or_swap false b c h = h

pub or_false_right : (a b : Bool) → (a || b) ≡ false → b ≡ false
or_false_right true b h = cc
or_false_right false b h = h

pub or_false_left : (a b : Bool) → (a || b) ≡ false → a ≡ false
or_false_left true b h = h
or_false_left false b h = refl

pub keys-cover :
    (o : SourceObservation) (seen : List Text) (os : List SourceObservation)
    → In o os
    → (any (text_eq o.key) seen || any (text_eq o.key) (keys seen os)) ≡ true
unfolding keys
keys-cover o seen [] h = elim h [ ]
keys-cover o seen (x ∷ os) (inl e) =
    if-cases (λ ks. (any (text_eq o.key) seen || any (text_eq o.key) ks) ≡ true)
      (any (text_eq x.key) seen)
      (λ s.
        or_left _ _ (subst (λ (z : SourceObservation). any (text_eq z.key) seen ≡ true) (sym e) s))
      (λ s. or_right _ _ (
        or_left _ _
          (subst (λ (z : SourceObservation). text_eq o.key z.key ≡ true) e (text_eq_self o.key))))
keys-cover o seen (x ∷ os) (inr h) =
    if-both (λ ks. (any (text_eq o.key) seen || any (text_eq o.key) ks) ≡ true)
      (any (text_eq x.key) seen) (keys-cover o seen os h)
      (or_swap (text_eq o.key x.key) _ _ (keys-cover o (x.key ∷ seen) os h))
