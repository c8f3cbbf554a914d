-- ===== src/Prelude/Lists.antt =====
-- Lists measured by native numbers, under the library's names; queries and updates of a table.
use Prim.Native.Nat.{ℕ, zero, suc, ◌+◌, ◌-◌, min}
use mathlib.Core.Path.{◌≡◌, refl, ap, sym, ◌∙◌}
use mathlib.Core.List.{List, [], ◌∷◌, ◌++◌, append_assoc}
use mathlib.Core.Bool.{Bool, true, false, ◌&&◌, ◌||◌}
use mathlib.Core.Option.{Option, none, some}
use native.Mathlib.Omega.{arith}
use legal_bridge.Prelude.Tests.{if◌then◌else◌, if-both, if-cases}

module _ {ℓ} {A : Type ℓ} where
  abbrev pub length : List A → ℕ
  length [] = 0
  length (x ∷ xs) = suc (length xs)

  abbrev pub take : ℕ → List A → List A
  take zero xs = []
  take (suc n) [] = []
  take (suc n) (x ∷ xs) = x ∷ take n xs

  abbrev pub drop : ℕ → List A → List A
  drop zero xs = xs
  drop (suc n) [] = []
  drop (suc n) (x ∷ xs) = drop n xs

  pub take-append-drop : (n : ℕ) (xs : List A) → take n xs ++ drop n xs ≡ xs
  take-append-drop zero xs = refl
  take-append-drop (suc n) [] = refl
  take-append-drop (suc n) (x ∷ xs) = ap (λ r. x ∷ r) (take-append-drop n xs)

  pub length-take : (n : ℕ) (xs : List A) → length (take n xs) ≡ min n (length xs)
  length-take zero xs = omega arith
  length-take (suc n) [] = omega arith
  length-take (suc n) (x ∷ xs) = omega (arith, length-take n xs)

  pub length-drop : (n : ℕ) (xs : List A) → length (drop n xs) ≡ length xs - n
  length-drop zero xs = omega arith
  length-drop (suc n) [] = omega arith
  length-drop (suc n) (x ∷ xs) = omega (arith, length-drop n xs)

  pub length-append : (xs ys : List A) → length (xs ++ ys) ≡ length xs + length ys
  length-append [] ys = omega arith
  length-append (x ∷ xs) ys = omega (arith, length-append xs ys)

  -- The first row that passes the test.
  abbrev pub find : (A → Bool) → List A → Option A
  find p [] = none
  find p (x ∷ xs) = if p x then some x else find p xs

  abbrev pub any : (A → Bool) → List A → Bool
  any p [] = false
  any p (x ∷ xs) = p x || any p xs

  abbrev pub all : (A → Bool) → List A → Bool
  all p [] = true
  all p (x ∷ xs) = p x && all p xs

  -- The rows that pass the test, in order.
  abbrev pub filter : (A → Bool) → List A → List A
  filter p [] = []
  filter p (x ∷ xs) = let rest = filter p xs in if p x then x ∷ rest else rest

  pub any-append : (p : A → Bool) (xs ys : List A) → any p (xs ++ ys) ≡ (any p xs || any p ys)
  any-append p [] ys = refl
  any-append p (x ∷ xs) ys = ground (arith, any-append p xs ys)

  pub filter-append :
      (p : A → Bool) (xs ys : List A) → filter p (xs ++ ys) ≡ filter p xs ++ filter p ys
  filter-append p [] ys = refl
  filter-append p (x ∷ xs) ys = ground (arith, filter-append p xs ys)

  -- Every row that passes the test is changed by `f`.
  abbrev pub update_where : (A → Bool) → (A → A) → List A → List A
  update_where p f [] = []
  update_where p f (x ∷ xs) = (if p x then f x else x) ∷ update_where p f xs

  -- A statement of every row.
  abbrev pub All {κ} : (A → Type κ) → List A → Type κ
  All P [] = Unit
  All P (x ∷ xs) = P x × All P xs

-- The lists one behind the other.
abbrev pub flatten {ℓ} : {A : Type ℓ} → List (List A) → List A
flatten [] = []
flatten (x ∷ xs) = x ++ flatten xs

pub flatten-append {ℓ} :
    {A : Type ℓ} (xs ys : List (List A)) → flatten (xs ++ ys) ≡ flatten xs ++ flatten ys
flatten-append [] ys = refl
flatten-append (x ∷ xs) ys =
    ap (λ r. x ++ r) (flatten-append xs ys) ∙ sym (append_assoc x (flatten xs) (flatten ys))

pub All-append {ℓ κ} :
    {A : Type ℓ} (P : A → Type κ) (xs ys : List A) → All P xs → All P ys → All P (xs ++ ys)
All-append P [] ys h k = k
All-append P (x ∷ xs) ys h k = (h.0, All-append P xs ys h.1 k)

module _ {ℓ} {A : Type ℓ} (before : A → A → Bool) where
  -- `order_by`: a stable sort, where `before x y` says that `x` need not follow `y`.
  unfoldable pub insert_by : A → List A → List A
  insert_by x [] = x ∷ []
  insert_by x (y ∷ ys) = let rest = insert_by x ys in if before x y then x ∷ y ∷ ys else y ∷ rest

  unfoldable pub sort_by : List A → List A
  unfolding insert_by
  sort_by [] = []
  sort_by (x ∷ xs) = insert_by x (sort_by xs)

  -- `order_by(key.desc()).limit(1)`: the greatest row, the first of equal ones.
  abbrev pub greatest : List A → Option A
  greatest [] = none
  greatest (x ∷ xs) = elim (greatest xs) [
    | none ↦ some x
    | some y ↦ if before x y then some x else some y
  ]

  -- Sorting keeps the rows.
  any-insert_by : (p : A → Bool) (x : A) (xs : List A) → any p (insert_by x xs) ≡ (p x || any p xs)
  unfolding insert_by
  any-insert_by p x [] = refl
  any-insert_by p x (y ∷ ys) =
      if-both (λ r. any p r ≡ (p x || (p y || any p ys))) (before x y) refl
        (ground (arith, any-insert_by p x ys))

  pub any-sort_by : (p : A → Bool) (xs : List A) → any p (sort_by xs) ≡ any p xs
  unfolding sort_by
  any-sort_by p [] = refl
  any-sort_by p (x ∷ xs) = ground (arith, any-insert_by p x (sort_by xs), any-sort_by p xs)

  -- Each row need not follow the next.
  abbrev pub Linked : List A → Type 0
  Linked [] = Unit
  Linked (x ∷ []) = Unit
  Linked (x ∷ y ∷ rest) = (before x y ≡ true) × Linked (y ∷ rest)

  module _ (total : (x y : A) → before x y ≡ false → before y x ≡ true) where
    -- A row that may stand before both stands before what comes of inserting the one.
    Linked-insert_behind :
        (y x : A) (ys : List A)
        → before y x ≡ true
        → Linked (y ∷ ys)
        → Linked (insert_by x ys)
        → Linked (y ∷ insert_by x ys)
    unfolding insert_by
    Linked-insert_behind y x [] h l m = (h, tt)
    Linked-insert_behind y x (z ∷ zs) h l m =
        if-both (λ r. Linked r → Linked (y ∷ r)) (before x z) (λ k. (h, k)) (λ k. (l.0, k)) m

    Linked-insert_by : (x : A) (ys : List A) → Linked ys → Linked (insert_by x ys)
    unfolding insert_by
    Linked-insert_by x [] l = tt
    Linked-insert_by x (y ∷ []) l =
        if-cases (λ r. Linked r) (before x y) (λ e. (e, tt)) (λ e. (total x y e, tt))
    Linked-insert_by x (y ∷ z ∷ zs) l =
        if-cases (λ r. Linked r) (before x y) (λ e. (e, l))
          (λ e. Linked-insert_behind y x (z ∷ zs) (total x y e) l (Linked-insert_by x (z ∷ zs) l.1))

    pub Linked-sort_by : (xs : List A) → Linked (sort_by xs)
    unfolding sort_by
    Linked-sort_by [] = tt
    Linked-sort_by (x ∷ xs) = Linked-insert_by x (sort_by xs) (Linked-sort_by xs)

  pub Linked-take : (n : ℕ) (xs : List A) → Linked xs → Linked (take n xs)
  Linked-take zero xs l = tt
  Linked-take (suc n) [] l = tt
  Linked-take (suc zero) (x ∷ []) l = tt
  Linked-take (suc (suc n)) (x ∷ []) l = tt
  Linked-take (suc zero) (x ∷ y ∷ xs) l = tt
  Linked-take (suc (suc n)) (x ∷ y ∷ xs) l = (l.0, Linked-take (suc n) (y ∷ xs) l.1)
