-- ===== src/Prelude/Tables.antt =====
-- Laws of the table operations.
use mathlib.Core.Path.{◌≡◌, refl}
use mathlib.Core.Logic.{◌⊎◌, ◌≢◌, inl, inr}
use mathlib.Core.Bool.{Bool, true, false}
use mathlib.Core.Option.{none, some}
use mathlib.Core.List.{List, [], ◌∷◌, ◌++◌}
use native.Mathlib.Omega.{arith}
use platform_forge.Prelude.Tests.{if◌then◌else◌, Bool-cases}
use platform_forge.Prelude.Rows.{In, here, there, find, update, insert}

module _ {ℓ} {A : Type ℓ} where
  pub In-append_left : {a : A} {xs : List A} (ys : List A) → In a xs → In a (xs ++ ys)
  In-append_left ys here = here
  In-append_left ys (there m) = there (In-append_left ys m)

  pub In-append_right : {a : A} (xs : List A) {ys : List A} → In a ys → In a (xs ++ ys)
  In-append_right [] m = m
  In-append_right (x ∷ xs) m = there (In-append_right xs m)

  pub In-append-cases : {a : A} (xs : List A) {ys : List A} → In a (xs ++ ys) → In a xs ⊎ In a ys
  In-append-cases [] m = inr m
  In-append-cases (x ∷ xs) here = inl here
  In-append-cases (x ∷ xs) (there m) = elim (In-append-cases xs m) [
    | inl k ↦ inl (there k)
    | inr k ↦ inr k
  ]

  pub In-insert-cases : {a b : A} (xs : List A) → In a (insert b xs) → In a xs ⊎ (a ≡ b)
  In-insert-cases [] here = inr refl
  In-insert-cases [] (there m) = elim m [ ]
  In-insert-cases (x ∷ xs) here = inl here
  In-insert-cases (x ∷ xs) (there m) = elim (In-insert-cases xs m) [
    | inl m' ↦ inl (there m')
    | inr e ↦ inr e
  ]

  -- A row of the updated table is an old row, changed where the WHERE clause held.
  pub In-update-cases :
      (p : A → Bool) (f : A → A) (xs : List A) {y : A}
      → In y (update p f xs)
      → (x : A) × In x xs × (y ≡ (if p x then f x else x))
  unfolding update
  In-update-cases p f [] m = elim m [ ]
  In-update-cases p f (x ∷ xs) here = (x, here, refl)
  In-update-cases p f (x ∷ xs) (there m) =
      let (z, mz, e) = In-update-cases p f xs m in (z, there mz, e)

  pub In-update :
      (p : A → Bool) (f : A → A) {x : A} {xs : List A}
      → In x xs
      → In (if p x then f x else x) (update p f xs)
  unfolding update
  In-update p f here = here
  In-update p f (there m) = there (In-update p f m)

  pub find-some : (p : A → Bool) (x : A) (xs : List A) → find p xs ≡ some x → In x xs × (p x ≡ true)
  unfolding find
  find-some p x [] e = cc
  find-some p x (y ∷ xs) e = elim (Bool-cases (p y)) [
    | inl h ↦ let q : y ≡ x = ground arith in rw (← q) (here, h)
    | inr h ↦ let (m, t) = find-some p x xs (ground arith) in (there m, t)
  ]

  pub find-none : (p : A → Bool) {x : A} {xs : List A} → In x xs → find p xs ≡ none → p x ≡ false
  unfolding find
  find-none p {x} here e = elim (Bool-cases (p x)) [ inl h ↦ ground arith | inr h ↦ h ]
  find-none p (there {x = y} m) e =
      find-none p m (elim (Bool-cases (p y)) [ inl h ↦ ground arith | inr h ↦ ground arith ])

  -- An UPDATE that matches no row leaves the table as it was.
  pub update-none : (p : A → Bool) (f : A → A) (xs : List A) → find p xs ≡ none → update p f xs ≡ xs
  unfolding update find
  update-none p f [] e = refl
  update-none p f (x ∷ xs) e = ground (arith, update-none p f xs)

  -- A SELECT on columns that the UPDATE leaves alone finds the same row, updated.
  pub find-update :
      (q p : A → Bool) (f : A → A) (xs : List A)
      → ((x : A) → q (f x) ≡ q x)
      → find q (update p f xs)
        ≡ elim (find q xs) [ none ↦ none | some x ↦ some (if p x then f x else x) ]
  unfolding update find
  find-update q p f [] h = refl
  find-update q p f (x ∷ xs) h = ground (arith, h x, find-update q p f xs h)

  -- One cannot both miss and find a row of the table.
  pub find-In : (p : A → Bool) {x : A} {xs : List A} → In x xs → p x ≡ true → find p xs ≢ none
  find-In p m h e = cc (find-none p m e)

  pub In-cons-cases : {a x : A} (xs : List A) → In a (x ∷ xs) → (a ≡ x) ⊎ In a xs
  In-cons-cases xs here = inl refl
  In-cons-cases xs (there m) = inr m
