-- ===== src/Prelude/Rows.antt =====
-- A table as a list of rows: what SELECT, UPDATE and INSERT do to it, and membership.
use Prim.Native.Nat.{ℕ, zero, suc, ◌+◌}
use mathlib.Core.Bool.{Bool, false, ◌||◌}
use mathlib.Core.Option.{Option, none, some}
use mathlib.Core.List.{List, [], ◌∷◌, ◌++◌}
use platform_forge.Prelude.Tests.{leb, if◌then◌else◌}

-- The row stands in the table.
pub data In {ℓ} {A : Type ℓ} (a : A) : List A → Type ℓ where
  here : {xs : List A} → In a (a ∷ xs)
  there : {x : A} {xs : List A} → In a xs → In a (x ∷ xs)

module _ {ℓ} {A : Type ℓ} where
  abbrev pub length : List A → ℕ
  length [] = 0
  length (x ∷ xs) = suc (length xs)

  -- SELECT ... WHERE p, in table order.
  unfoldable pub select : (A → Bool) → List A → List A
  select p [] = []
  select p (x ∷ xs) = let rest = select p xs in if p x then x ∷ rest else rest

  -- The first row of such a SELECT: `fetchone`.
  unfoldable pub find : (A → Bool) → List A → Option A
  find p [] = none
  find p (x ∷ xs) = if p x then some x else find p xs

  -- EXISTS (SELECT ... WHERE p).
  unfoldable pub any : (A → Bool) → List A → Bool
  any p [] = false
  any p (x ∷ xs) = p x || any p xs

  -- UPDATE ... SET f WHERE p.
  unfoldable pub update : (A → Bool) → (A → A) → List A → List A
  update p f [] = []
  update p f (x ∷ xs) = (if p x then f x else x) ∷ update p f xs

  -- INSERT of one row.
  abbrev pub insert : A → List A → List A
  insert x xs = xs ++ (x ∷ [])

  -- ORDER BY ... LIMIT 1: the row that stands before every other.
  unfoldable pub first_by : (A → A → Bool) → List A → Option A
  first_by before [] = none
  first_by before (x ∷ xs) = elim (first_by before xs) [
    | none ↦ some x
    | some y ↦ if before y x then some y else some x
  ]

  -- `x` before the first row that it may stand before.
  unfoldable pub insert_by : (A → A → Bool) → A → List A → List A
  insert_by le x [] = x ∷ []
  insert_by le x (y ∷ ys) = if le x y then x ∷ y ∷ ys else y ∷ insert_by le x ys

  unfoldable pub sort_by : (A → A → Bool) → List A → List A
  unfolding insert_by
  sort_by le [] = []
  sort_by le (x ∷ xs) = insert_by le x (sort_by le xs)

  -- ORDER BY key.
  unfoldable pub order_by : (A → ℕ) → List A → List A
  unfolding sort_by
  order_by key xs = sort_by (λ x y. leb (key x) (key y)) xs

  -- ORDER BY key DESC.
  unfoldable pub order_down : (A → ℕ) → List A → List A
  unfolding sort_by
  order_down key xs = sort_by (λ x y. leb (key y) (key x)) xs

  -- LIMIT n.
  unfoldable pub take : ℕ → List A → List A
  take zero xs = []
  take (suc n) [] = []
  take (suc n) (x ∷ xs) = x ∷ take n xs

  -- count(*) FILTER (WHERE p).
  unfoldable pub count : (A → Bool) → List A → ℕ
  count p [] = 0
  count p (x ∷ xs) = (if p x then 1 else 0) + count p xs
