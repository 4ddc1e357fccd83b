-- ===== src/Prelude/Orders.antt =====
-- What ORDER BY, LIMIT and count(*) keep of a table.
use Prim.Native.Nat.{ℕ, zero, suc, ◌≤◌, ◌<◌}
use mathlib.Core.Path.{◌≡◌, refl}
use mathlib.Core.Logic.{inl, inr}
use mathlib.Core.Bool.{Bool, true, false}
use mathlib.Core.List.{List, [], ◌∷◌}
use native.Mathlib.Omega.{arith}
use platform_forge.Prelude.Tests.{Bool-cases}
use platform_forge.Prelude.Rows.{
  In, here, there, length, update, insert_by, sort_by, order_by, order_down, take, count, select,
}

module _ {ℓ} {A : Type ℓ} where
  In-cons-map : (x y : A) (xs ys : List A) → (In x xs → In x ys) → In x (y ∷ xs) → In x (y ∷ ys)
  In-cons-map x y xs ys f here = here
  In-cons-map x y xs ys f (there m) = there (f m)

  In-swap : (x y z : A) (ys : List A) → In x (y ∷ z ∷ ys) → In x (z ∷ y ∷ ys)
  In-swap x y z ys here = there here
  In-swap x y z ys (there here) = here
  In-swap x y z ys (there (there m)) = there (there m)

  In-insert_by :
      (le : A → A → Bool) (x y : A) (ys : List A) → In x (y ∷ ys) → In x (insert_by le y ys)
  unfolding insert_by
  In-insert_by le x y [] m = m
  In-insert_by le x y (z ∷ ys) m = elim (Bool-cases (le y z)) [
    | inl t ↦ rw t m
    | inr f ↦ rw f (In-cons-map x z _ _ (In-insert_by le x y ys) (In-swap x y z ys m))
  ]

  In-insert_by-cases :
      (le : A → A → Bool) (x y : A) (ys : List A) → In x (insert_by le y ys) → In x (y ∷ ys)
  unfolding insert_by
  In-insert_by-cases le x y [] m = m
  In-insert_by-cases le x y (z ∷ ys) m = elim (Bool-cases (le y z)) [
    | inl t ↦ rw t at m
    | inr f ↦ In-swap x z y ys (In-cons-map x z _ _ (In-insert_by-cases le x y ys) (rw f at m))
  ]

  -- Sorting keeps the rows.
  pub In-sort_by : (le : A → A → Bool) (x : A) (xs : List A) → In x xs → In x (sort_by le xs)
  unfolding sort_by
  In-sort_by le x [] m = m
  In-sort_by le x (y ∷ xs) here = In-insert_by le x y _ here
  In-sort_by le x (y ∷ xs) (there m) = In-insert_by le x y _ (there (In-sort_by le x xs m))

  pub In-sort_by-cases : (le : A → A → Bool) (x : A) (xs : List A) → In x (sort_by le xs) → In x xs
  unfolding sort_by
  In-sort_by-cases le x [] m = m
  In-sort_by-cases le x (y ∷ xs) m =
      In-cons-map x y _ xs (In-sort_by-cases le x xs) (In-insert_by-cases le x y _ m)

  pub In-order_by : (key : A → ℕ) (x : A) (xs : List A) → In x xs → In x (order_by key xs)
  unfolding order_by
  In-order_by key x xs m = In-sort_by _ x xs m

  pub In-order_by-cases : (key : A → ℕ) (x : A) (xs : List A) → In x (order_by key xs) → In x xs
  unfolding order_by
  In-order_by-cases key x xs m = In-sort_by-cases _ x xs m

  pub In-order_down-cases : (key : A → ℕ) (x : A) (xs : List A) → In x (order_down key xs) → In x xs
  unfolding order_down
  In-order_down-cases key x xs m = In-sort_by-cases _ x xs m

  pub length-take : (n : ℕ) (xs : List A) → length (take n xs) ≤ n
  unfolding take
  length-take zero xs = omega arith
  length-take (suc n) [] = omega arith
  length-take (suc n) (x ∷ xs) = omega (arith, length-take n xs)

  pub In-take-cases : (n : ℕ) (x : A) (xs : List A) → In x (take n xs) → In x xs
  unfolding take
  In-take-cases zero x xs m = elim m [ ]
  In-take-cases (suc n) x [] m = elim m [ ]
  In-take-cases (suc n) x (y ∷ xs) m = In-cons-map x y _ xs (In-take-cases n x xs) m

  -- Two tests that agree on the rows count the same.
  pub count-cong :
      (p q : A → Bool) (xs : List A) → ((x : A) → In x xs → p x ≡ q x) → count p xs ≡ count q xs
  unfolding count
  count-cong p q [] h = refl
  count-cong p q (x ∷ xs) h = rw (h x here, count-cong p q xs (λ y m. h y (there m)))

  pub count-zero : (p : A → Bool) (xs : List A) → count p xs ≡ 0 → (x : A) → In x xs → p x ≡ false
  unfolding count
  count-zero p [] e x m = elim m [ ]
  count-zero p (y ∷ xs) e x here = ground arith
  count-zero p (y ∷ xs) e x (there m) = count-zero p xs (ground arith) x m

  pub zero-count : (p : A → Bool) (xs : List A) → ((x : A) → In x xs → p x ≡ false) → count p xs ≡ 0
  unfolding count
  zero-count p [] h = refl
  zero-count p (x ∷ xs) h = rw (h x here) (omega (arith, zero-count p xs (λ y m. h y (there m))))

  pub select-cong :
      (p q : A → Bool) (xs : List A) → ((x : A) → In x xs → p x ≡ q x) → select p xs ≡ select q xs
  unfolding select
  select-cong p q [] h = refl
  select-cong p q (x ∷ xs) h = rw (h x here, select-cong p q xs (λ y m. h y (there m)))

  -- An UPDATE that keeps a test keeps its count.
  pub count-update :
      (p q : A → Bool) (f : A → A) (xs : List A)
      → ((x : A) → In x xs → q x ≡ true → p (f x) ≡ p x)
      → count p (update q f xs) ≡ count p xs
  unfolding count update
  count-update p q f [] h = refl
  count-update p q f (x ∷ xs) h =
      let rest = count-update p q f xs (λ y m. h y (there m)) in
      elim (Bool-cases (q x)) [ inl t ↦ rw (t, h x here t, rest) refl | inr n ↦ rw (n, rest) refl ]

  count-update-le :
      (p q : A → Bool) (f : A → A) (xs : List A)
      → ((x : A) → In x xs → q x ≡ true → p (f x) ≡ false)
      → count p (update q f xs) ≤ count p xs
  unfolding count update
  count-update-le p q f [] h = omega arith
  count-update-le p q f (x ∷ xs) h =
      ground (arith, h x here, count-update-le p q f xs (λ y m. h y (there m)))

  -- One that makes the test false, and finds it true of some row, lowers it.
  pub count-update-lt :
      (p q : A → Bool) (f : A → A) {a : A} (xs : List A)
      → In a xs
      → q a ≡ true
      → p a ≡ true
      → ((x : A) → In x xs → q x ≡ true → p (f x) ≡ false)
      → count p (update q f xs) < count p xs
  unfolding count update
  count-update-lt p q f [] m t h k = elim m [ ]
  count-update-lt p q f (x ∷ xs) here t h k =
      let off = k x here t in
      let less = count-update-le p q f xs (λ y m. k y (there m)) in
      rw (t, off, h) (omega (arith, less))
  count-update-lt p q f (x ∷ xs) (there m) t h k =
      let less = count-update-lt p q f xs m t h (λ y n. k y (there n)) in
      ground (arith, k x here, less)
