-- ===== src/Prelude/Every.antt =====
-- What holds of every row of a list: what queries and sorting keep, and that rows are in their list.
use Prim.Native.Nat.{ℕ, zero, suc, ◌≤◌}
use mathlib.Core.Path.{◌≡◌, subst}
use mathlib.Core.Logic.{inl, inr}
use mathlib.Core.Option.{some}
use mathlib.Core.Bool.{Bool, true}
use mathlib.Core.List.{List, [], ◌∷◌, map}
use mathlib.Core.List.{Mem, mem-cons_self, mem-cons_of_mem}
use native.Mathlib.Omega.{arith}
use legal_bridge.Prelude.Tests.{if-both, if-cases, Bool-cases, Option-cases}
use legal_bridge.Prelude.Lists.{All, length, find, filter, greatest, take, insert_by, sort_by}

module _ {ℓ κ} {A : Type ℓ} (P : A → Type κ) where
  pub All-filter : (p : A → Bool) (xs : List A) → All P xs → All P (filter p xs)
  All-filter p [] h = tt
  All-filter p (x ∷ xs) h = if-both (All P) (p x) (h.0, All-filter p xs h.1) (All-filter p xs h.1)

  pub All-take : (n : ℕ) (xs : List A) → All P xs → All P (take n xs)
  All-take zero xs h = tt
  All-take (suc n) [] h = tt
  All-take (suc n) (x ∷ xs) h = (h.0, All-take n xs h.1)

  All-insert_by :
      (before : A → A → Bool) (x : A) (xs : List A) → P x → All P xs → All P (insert_by before x xs)
  unfolding insert_by
  All-insert_by before x [] h k = (h, tt)
  All-insert_by before x (y ∷ ys) h k =
      if-both (All P) (before x y) (h, k) (k.0, All-insert_by before x ys h k.1)

  pub All-sort_by : (before : A → A → Bool) (xs : List A) → All P xs → All P (sort_by before xs)
  unfolding sort_by
  All-sort_by before [] h = tt
  All-sort_by before (x ∷ xs) h =
      All-insert_by before x (sort_by before xs) h.0 (All-sort_by before xs h.1)

module _ {ℓ κ μ} {A : Type ℓ} (P : A → Type κ) (Q : A → Type μ) where
  pub All-mono : ((x : A) → P x → Q x) → (xs : List A) → All P xs → All Q xs
  All-mono f [] h = tt
  All-mono f (x ∷ xs) h = (f x h.0, All-mono f xs h.1)

  -- The rows that pass a test have what the test tells.
  pub All-passed :
      (p : A → Bool)
      → ((x : A) → P x → p x ≡ true → Q x)
      → (xs : List A) → All P xs
      → All Q (filter p xs)
  All-passed p f [] h = tt
  All-passed p f (x ∷ xs) h =
      if-cases (All Q) (p x) (λ e. (f x h.0 e, All-passed p f xs h.1)) (λ e. All-passed p f xs h.1)

-- The row that a query finds.
pub All-find {ℓ κ} :
    {A : Type ℓ} (P : A → Type κ) (p : A → Bool) (xs : List A) (a : A)
    → All P xs
    → find p xs ≡ some a
    → P a
All-find P p [] a h e = cc
All-find P p (x ∷ xs) a h e = elim (Bool-cases (p x)) [
  | inl here ↦ let first : x ≡ a = ground arith in subst P first h.0
  | inr other ↦ All-find P p xs a h.1 (ground arith)
]

pub All-map {ℓ κ μ} :
    {A : Type ℓ} {B : Type κ} (P : B → Type μ) (f : A → B) (xs : List A)
    → All (λ x. P (f x)) xs
    → All P (map f xs)
All-map P f [] h = tt
All-map P f (x ∷ xs) h = (h.0, All-map P f xs h.1)

-- Every row of a list is in it.
pub All-Mem {ℓ} : {A : Type ℓ} (xs : List A) → All (λ x. Mem x xs) xs
All-Mem [] = tt
All-Mem {A} (x ∷ xs) = (
  mem-cons_self,
  All-mono (λ (y : A). Mem y xs) (λ (y : A). Mem y (x ∷ xs)) (λ y m. mem-cons_of_mem x m) xs
      (All-Mem xs),
)

pub length-filter_le {ℓ} :
    {A : Type ℓ} (p : A → Bool) (xs : List A) → length (filter p xs) ≤ length xs
length-filter_le p [] = omega arith
length-filter_le p (x ∷ xs) =
    if-both (λ ys. length ys ≤ suc (length xs)) (p x) (omega (arith, length-filter_le p xs))
      (omega (arith, length-filter_le p xs))

-- The greatest row is one of the rows.
pub All-greatest {ℓ κ} :
    {A : Type ℓ} (P : A → Type κ) (before : A → A → Bool) (xs : List A) (a : A)
    → All P xs
    → greatest before xs ≡ some a
    → P a
All-greatest P before [] a h e = cc
All-greatest P before (x ∷ xs) a h e = elim (Option-cases (greatest before xs)) [
  | inl only ↦ let first : x ≡ a = ground arith in subst P first h.0
  | inr (y, rest) ↦ elim (Bool-cases (before x y)) [
    | inl here ↦ let first : x ≡ a = ground arith in subst P first h.0
    | inr other ↦ All-greatest P before xs a h.1 (ground arith)
  ]
]
