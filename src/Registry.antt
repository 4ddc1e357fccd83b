-- ===== src/Registry.antt =====
-- src/workflow_engine/registry.py: the registered workflows and the retry delay. A handler is an
-- element of a type `H` that the registry only stores and returns.
pub mod Laws
pub mod Jitter
use platform_forge.Prelude.{
  ℕ, Bool, true, false, not, ◌||◌, Option, none, some, String, List, [], ◌∷◌, map, str_eq, length,
  ◌==◌, if◌then◌else◌, find, any, Result, ok, err,
}

pub record Step {ℓ} (H : Type ℓ) : Type ℓ where
  pub name : String
  pub handler : H
  pub max_attempts : ℕ
  pub timeout_seconds : ℕ

pub record Workflow {ℓ} (H : Type ℓ) : Type ℓ where
  pub name : String
  pub steps : List (Step H)

-- What `Registry.register` raises.
pub data RegisterError : Type 0 where
  no_steps duplicate_step_names : RegisterError

-- set(names), as a list without repetitions.
unfoldable pub set_of : List String → List String
set_of [] = []
set_of (x ∷ xs) = let rest = set_of xs in if any (str_eq x) rest then rest else x ∷ rest

module _ {ℓ} {H : Type ℓ} where
  -- The dictionary `_workflows`, as an association list in insertion order.
  unfoldable pub get : List (Workflow H) → String → Option (Workflow H)
  get ws name = find (λ w. str_eq w.name name) ws

  -- self._workflows[workflow.name] = workflow
  unfoldable pub store : List (Workflow H) → Workflow H → List (Workflow H)
  store [] w = w ∷ []
  store (v ∷ ws) w = if str_eq v.name w.name then w ∷ ws else v ∷ store ws w

  abbrev pub step_names : Workflow H → List String
  step_names w = map (λ s. s.name) w.steps

  unfoldable pub register :
      List (Workflow H) → Workflow H → Result RegisterError (List (Workflow H))
  register ws w = elim w.steps [
    | [] ↦ err no_steps
    | _ ∷ _ ↦
        if not (length (step_names w) == length (set_of (step_names w)))
        then err duplicate_step_names
        else ok (store ws w)
  ]

  unfoldable pub handler : List (Workflow H) → String → String → Option H
  handler ws workflow_name step_name = elim (get ws workflow_name) [
    | none ↦ none
    | some w ↦ elim (find (λ s. str_eq s.name step_name) w.steps) [
      | none ↦ none
      | some s ↦ some s.handler
    ]
  ]
