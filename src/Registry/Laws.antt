-- ===== src/Registry/Laws.antt =====
-- What registration promises: every workflow that `get` finds has steps, with distinct names.
use platform_forge.Registry.{set_of, Workflow, step_names, store, register, get}
use platform_forge.Prelude.{
  any, refl, ◌≢◌, ok, String, List, ◌≡◌, length, false, ◌∷◌, str_eq, ◌≤◌, arith, [], subst, find,
  if◌then◌else◌, str_eq_iff, some, inl, Bool-cases, inr,
}

-- No name occurs twice.
abbrev pub IsDistinct : List String → Type 0
IsDistinct [] = Unit
IsDistinct (x ∷ xs) = (any (str_eq x) xs ≡ false) × IsDistinct xs

length-set_of-le : (xs : List String) → length (set_of xs) ≤ length xs
unfolding set_of
length-set_of-le [] = omega arith
length-set_of-le (x ∷ xs) = ground (arith, length-set_of-le xs)

set_of-full : (xs : List String) → length xs ≡ length (set_of xs) → set_of xs ≡ xs
unfolding set_of
set_of-full [] e = refl
set_of-full (x ∷ xs) e = ground (arith, length-set_of-le xs, set_of-full xs)

set_of-IsDistinct : (xs : List String) → IsDistinct (set_of xs)
unfolding set_of
set_of-IsDistinct [] = tt
set_of-IsDistinct (x ∷ xs) = ground (arith, set_of-IsDistinct xs)

module _ {ℓ} {H : Type ℓ} where
  -- A workflow that may be registered.
  pub record IsProper (w : Workflow H) : Type ℓ where
    pub has_steps : w.steps ≢ []
    pub distinct : IsDistinct (step_names w)

  -- A registry built by any calls of `register`, those that raise included.
  pub data IsRegistry : List (Workflow H) → Type ℓ where
    blank : IsRegistry []
    added :
        {ws ws' : List (Workflow H)} (w : Workflow H)
        → IsRegistry ws
        → register ws w ≡ ok ws'
        → IsRegistry ws'

  names-IsDistinct :
      (w : Workflow H)
      → length (step_names w) ≡ length (set_of (step_names w))
      → IsDistinct (step_names w)
  names-IsDistinct w e =
      subst IsDistinct (set_of-full (step_names w) e) (set_of-IsDistinct (step_names w))

  register_stores :
      (ws ws' : List (Workflow H)) (w : Workflow H)
      → register ws w ≡ ok ws'
      → (w.steps ≢ [])
        × (length (step_names w) ≡ length (set_of (step_names w)))
        × (ws' ≡ store ws w)
  unfolding register
  register_stores ws ws' w e = (λ none_left. ground arith, ground arith, ground arith)

  -- A stored workflow is found under its name, and replaces the one that had it; every other name is
  -- found as before.
  pub get-store :
      (ws : List (Workflow H)) (w : Workflow H) (name : String)
      → get (store ws w) name ≡ (if str_eq w.name name then some w else get ws name)
  unfolding get store find
  get-store [] w name = refl
  get-store (x ∷ ws) w name = ground (
    arith,
    get-store ws w name,
    str_eq_iff x.name w.name,
    str_eq_iff x.name name,
    str_eq_iff w.name name,
  )

  blank_finds : (name : String) (w : Workflow H) → get [] name ≢ some w
  unfolding get find
  blank_finds name w e = cc

  -- Every workflow that `get` finds in a registry that calls of `register` built has steps, and their names are distinct.
  pub get-IsProper :
      (ws : List (Workflow H))
      → IsRegistry ws
      → (name : String) (w : Workflow H) → get ws name ≡ some w
      → IsProper w
  get-IsProper ws (added {ws = old} k r h) name w e =
      let (steps, distinct, same) = register_stores old ws k h in
      let found = get-store old k name in
      elim (Bool-cases (str_eq k.name name)) [
        | inl t ↦
            let one : k ≡ w = ground (arith, found, same, e) in
            rw (← one) (record { has_steps = steps; distinct = names-IsDistinct k distinct })
        | inr n ↦ get-IsProper old r name w (ground (arith, found, same, e))
      ]
  get-IsProper _ blank name w e = absurd (blank_finds name w e)
