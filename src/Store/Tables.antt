-- ===== src/Store/Tables.antt =====
-- Lemmas on the queries and updates of tables.
use legal_bridge.Prelude.{
  ℕ, Bool, true, false, none, some, List, [], ◌∷◌, ◌++◌, ◌≡◌, refl, ◌&&◌, ◌==◌, arith, find, any,
  update_where, All, if◌then◌else◌,
}

module _ {ℓ} {A : Type ℓ} where
  -- A row that is found passes the test.
  pub find_holds : (p : A → Bool) (xs : List A) (a : A) → find p xs ≡ some a → p a ≡ true
  find_holds p [] a h = cc
  find_holds p (x ∷ xs) a h = ground (arith, find_holds p xs a)

  -- A row appended behind one that is found does not change what is found.
  pub find-append :
      (p : A → Bool) (xs ys : List A) (a : A) → find p xs ≡ some a → find p (xs ++ ys) ≡ some a
  find-append p [] ys a h = cc
  find-append p (x ∷ xs) ys a h = ground (arith, find-append p xs ys a)

  pub find-append_none :
      (p : A → Bool) (xs ys : List A) → find p xs ≡ none → find p (xs ++ ys) ≡ find p ys
  find-append_none p [] ys h = refl
  find-append_none p (x ∷ xs) ys h = ground (arith, find-append_none p xs ys)

  -- Writing `v` over the rows that pass `q`, one of which is the first that passes `p`.
  pub find-update_where :
      (p q : A → Bool) (v : A) (xs : List A) (a : A)
      → find p xs ≡ some a
      → q a ≡ true
      → p v ≡ true
      → find p (update_where q (λ _. v) xs) ≡ some v
  find-update_where p q v [] a h k e = cc
  find-update_where p q v (x ∷ xs) a h k e = ground (arith, find-update_where p q v xs a)

  -- An update of rows outside the query.
  pub find-update_where_ne :
      (p q : A → Bool) (f : A → A) (xs : List A)
      → ((a : A) → q a ≡ true → (p a ≡ false) × (p (f a) ≡ false))
      → find p (update_where q f xs) ≡ find p xs
  find-update_where_ne p q f [] h = refl
  find-update_where_ne p q f (x ∷ xs) h = ground (arith, h x, find-update_where_ne p q f xs h)

  -- An update of rows that are not there.
  pub update_where-none :
      (p : A → Bool) (f : A → A) (xs : List A) → find p xs ≡ none → update_where p f xs ≡ xs
  update_where-none p f [] h = refl
  update_where-none p f (x ∷ xs) h = ground (arith, update_where-none p f xs)

  pub All-update_where {κ} :
      (P Q : A → Type κ) (q : A → Bool) (f : A → A) (xs : List A)
      → All P xs
      → ((a : A) → q a ≡ true → P a → Q (f a))
      → ((a : A) → q a ≡ false → P a → Q a)
      → All Q (update_where q f xs)
  All-update_where P Q q f [] h k l = tt
  All-update_where P Q q f (x ∷ xs) h k l =
      (head (q x) (k x) (l x), All-update_where P Q q f xs h.1 k l)
    where
      head :
          (b : Bool)
          → (b ≡ true → P x → Q (f x))
          → (b ≡ false → P x → Q x)
          → Q (if b then f x else x)
      head true yes_case no_case = yes_case refl h.0
      head false yes_case no_case = no_case refl h.0

  pub All-of : (P : A → Type 0) → ((a : A) → P a) → (xs : List A) → All P xs
  All-of P h [] = tt
  All-of P h (x ∷ xs) = (h x, All-of P h xs)

  pub find-none_of : (p : A → Bool) (xs : List A) → ((a : A) → p a ≡ false) → find p xs ≡ none
  find-none_of p [] h = refl
  find-none_of p (x ∷ xs) h = ground (arith, h x, find-none_of p xs h)

  -- What one query misses everywhere another does not find.
  pub find_misses :
      (p q : A → Bool) (xs : List A) (a : A) → find p xs ≡ none → find q xs ≡ some a → p a ≡ false
  find_misses p q [] a h k = cc
  find_misses p q (x ∷ xs) a h k = ground (arith, find_misses p q xs a)

  -- A table with a primary key: no two rows share it.
  abbrev pub Distinct : (A → ℕ) → List A → Type ℓ
  Distinct key [] = Unit
  Distinct key (x ∷ xs) = (find (λ y. key y == key x) xs ≡ none) × Distinct key xs

  -- A query by key and a further test finds the row that the query by key finds.
  pub find-Distinct :
      (key : A → ℕ) (k : ℕ) (p q : A → Bool) (xs : List A) (a : A)
      → Distinct key xs
      → find (λ o. (key o == k) && p o) xs ≡ some a
      → ((o : A) → q o ≡ true)
      → find (λ o. (key o == k) && q o) xs ≡ some a
  find-Distinct key k p q [] a d h i = cc
  find-Distinct key k p q (x ∷ xs) a d h i = ground (
    arith,
    i x,
    find_misses (λ y. key y == key x) (λ o. (key o == k) && p o) xs a d.0,
    find_holds (λ o. (key o == k) && p o) xs a,
    find-Distinct key k p q xs a d.1,
  )

module _ {A : Type 0} (same : A → A → Bool) where
  -- A table with a unique index: no two rows agree on it.
  abbrev pub UniqueBy : List A → Type 0
  UniqueBy [] = Unit
  UniqueBy (x ∷ xs) = (any (same x) xs ≡ false) × UniqueBy xs

  any-append :
      (p : A → Bool) (xs : List A) (v : A)
      → any p xs ≡ false
      → p v ≡ false
      → any p (xs ++ v ∷ []) ≡ false
  any-append p [] v h k = ground arith
  any-append p (x ∷ xs) v h k = ground (arith, any-append p xs v)

  -- The index stays unique when a row that no other agrees with is added.
  pub UniqueBy-append :
      ((a b : A) → same a b ≡ same b a)
      → (xs : List A) (v : A) → UniqueBy xs
      → any (same v) xs ≡ false
      → UniqueBy (xs ++ v ∷ [])
  UniqueBy-append comm [] v h k = (refl, tt)
  UniqueBy-append comm (x ∷ xs) v h k = (
    any-append (same x) xs v h.0 (ground (arith, comm x v)),
    UniqueBy-append comm xs v h.1 (ground arith),
  )
