-- ===== src/Prelude/Changes.antt =====
-- An UPDATE as a change of every row, and more laws of SELECT.
use mathlib.Core.Path.{◌≡◌, refl}
use mathlib.Core.Logic.{◌≢◌, inl, inr}
use mathlib.Core.Bool.{Bool, true, false}
use mathlib.Core.Option.{none, some}
use mathlib.Core.List.{List, [], ◌∷◌, map}
use native.Mathlib.Omega.{arith}
use platform_forge.Prelude.Tests.{if◌then◌else◌, Bool-cases, Option-cases}
use platform_forge.Prelude.Rows.{insert, In, here, there, select, find, any, update, first_by}

-- A change of every row.
module _ {ℓ κ} {A : Type ℓ} {B : Type κ} where
  pub In-map-cases :
      (f : A → B) (xs : List A) {y : B} → In y (map f xs) → (x : A) × In x xs × (y ≡ f x)
  In-map-cases f [] m = elim m [ ]
  In-map-cases f (x ∷ xs) here = (x, here, refl)
  In-map-cases f (x ∷ xs) (there m) = let (z, mz, e) = In-map-cases f xs m in (z, there mz, e)

  pub In-map : (f : A → B) {x : A} {xs : List A} → In x xs → In (f x) (map f xs)
  In-map f here = here
  In-map f (there m) = there (In-map f m)

module _ {ℓ} {A : Type ℓ} where
  pub find-map :
      (q : A → Bool) (f : A → A) (xs : List A)
      → ((x : A) → q (f x) ≡ q x)
      → find q (map f xs) ≡ elim (find q xs) [ none ↦ none | some x ↦ some (f x) ]
  unfolding find
  find-map q f [] h = refl
  find-map q f (x ∷ xs) h = ground (arith, h x, find-map q f xs h)

  -- An UPDATE as a change of every row.
  abbrev pub changed : (A → Bool) → (A → A) → A → A
  changed p f x = if p x then f x else x

  pub update-eq-map :
      (p : A → Bool) (f : A → A) (xs : List A) → update p f xs ≡ map (changed p f) xs
  unfolding update
  update-eq-map p f [] = refl
  update-eq-map p f (x ∷ xs) = rw (update-eq-map p f xs)

  pub any-true : (p : A → Bool) (xs : List A) → any p xs ≡ true → (x : A) × In x xs × (p x ≡ true)
  unfolding any
  any-true p [] e = cc
  any-true p (x ∷ xs) e = elim (Bool-cases (p x)) [
    | inl h ↦ (x, here, h)
    | inr h ↦ let (y, m, t) = any-true p xs (ground arith) in (y, there m, t)
  ]

  pub any-false : (p : A → Bool) {x : A} {xs : List A} → In x xs → any p xs ≡ false → p x ≡ false
  unfolding any
  any-false p {x} here e = elim (Bool-cases (p x)) [ inl h ↦ ground arith | inr h ↦ h ]
  any-false p (there {x = y} m) e =
      any-false p m (elim (Bool-cases (p y)) [ inl h ↦ ground arith | inr h ↦ ground arith ])

  pub map-map : (f g : A → A) (xs : List A) → map f (map g xs) ≡ map (λ x. f (g x)) xs
  map-map f g [] = refl
  map-map f g (x ∷ xs) = rw (map-map f g xs)

  pub update-update-eq-map :
      (p q : A → Bool) (f g : A → A) (xs : List A)
      → update p f (update q g xs) ≡ map (λ x. changed p f (changed q g x)) xs
  update-update-eq-map p q f g xs =
      rw (update-eq-map q g xs, update-eq-map p f (map (changed q g) xs)) (map-map _ _ xs)

  pub update-miss :
      (p : A → Bool) (f : A → A) (xs : List A)
      → ((x : A) → In x xs → p x ≡ false)
      → update p f xs ≡ xs
  unfolding update
  update-miss p f [] h = refl
  update-miss p f (x ∷ xs) h = rw (h x here, update-miss p f xs (λ y m. h y (there m)))

  -- What ORDER BY ... LIMIT 1 gives is a row of the table.
  pub first_by-In :
      (before : A → A → Bool) (x : A) (xs : List A) → first_by before xs ≡ some x → In x xs
  unfolding first_by
  first_by-In before x [] e = cc
  first_by-In before x (y ∷ xs) e = elim (Option-cases (first_by before xs)) [
    | inl h ↦ let same : y ≡ x = ground arith in rw same here
    | inr (z, h) ↦ elim (Bool-cases (before z y)) [
      | inl b ↦ let same : z ≡ x = ground arith in there (rw (← same) (first_by-In before z xs h))
      | inr b ↦ let same : y ≡ x = ground arith in rw same here
    ]
  ]

  In-select-head :
      (p : A → Bool) (x y : A) (xs : List A)
      → (In x (select p xs) → In x xs × (p x ≡ true))
      → p y ≡ true
      → In x (y ∷ select p xs)
      → In x (y ∷ xs) × (p x ≡ true)
  In-select-head p x y xs rest h here = (here, h)
  In-select-head p x y xs rest h (there m) = let (n, t) = rest m in (there n, t)

  pub In-select-cases :
      (p : A → Bool) (x : A) (xs : List A) → In x (select p xs) → In x xs × (p x ≡ true)
  unfolding select
  In-select-cases p x [] m = elim m [ ]
  In-select-cases p x (y ∷ xs) m = elim (Bool-cases (p y)) [
    | inl h ↦ In-select-head p x y xs (In-select-cases p x xs) h (rw h at m)
    | inr h ↦ let (n, t) = In-select-cases p x xs (rw h at m) in (there n, t)
  ]

  pub In-select : (p : A → Bool) {x : A} {xs : List A} → In x xs → p x ≡ true → In x (select p xs)
  unfolding select
  In-select p here h = rw h here
  In-select p (there {x = y} m) h = elim (Bool-cases (p y)) [
    | inl k ↦ rw k (there (In-select p m h))
    | inr k ↦ rw k (In-select p m h)
  ]

  pub map-id : (f : A → A) (xs : List A) → ((x : A) → f x ≡ x) → map f xs ≡ xs
  map-id f [] h = refl
  map-id f (x ∷ xs) h = rw (h x, map-id f xs h)

  pub find-insert :
      (p : A → Bool) (x : A) (xs : List A)
      → find p (insert x xs)
        ≡ elim (find p xs) [ none ↦ (if p x then some x else none) | some y ↦ some y ]
  unfolding find
  find-insert p x [] = refl
  find-insert p x (y ∷ xs) = ground (arith, find-insert p x xs)

  pub any-In : (p : A → Bool) {x : A} {xs : List A} → In x xs → p x ≡ true → any p xs ≡ true
  unfolding any
  any-In p here h = rw h refl
  any-In p (there m) h = ground (arith, any-In p m h)

  pub find-any : (p : A → Bool) (xs : List A) → any p xs ≡ false → find p xs ≡ none
  unfolding find any
  find-any p [] e = refl
  find-any p (x ∷ xs) e = ground (arith, find-any p xs)

  pub find-miss :
      (p : A → Bool) (xs : List A) → ((x : A) → In x xs → p x ≡ false) → find p xs ≡ none
  unfolding find
  find-miss p [] h = refl
  find-miss p (x ∷ xs) h = rw (h x here) (find-miss p xs (λ y m. h y (there m)))

  first_by-some : (before : A → A → Bool) (x : A) (xs : List A) → first_by before (x ∷ xs) ≢ none
  unfolding first_by
  first_by-some before x xs e = elim (Option-cases (first_by before xs)) [
    | inl n ↦ ground arith
    | inr (y, h) ↦ elim (Bool-cases (before y x)) [ inl b ↦ ground arith | inr b ↦ ground arith ]
  ]

  -- ORDER BY ... LIMIT 1 finds a row unless there is none.
  pub first_by-none :
      (before : A → A → Bool) {x : A} (xs : List A) → first_by before xs ≡ none → In x xs → ⊥
  first_by-none before [] e m = elim m [ ]
  first_by-none before (y ∷ xs) e m = first_by-some before y xs e
