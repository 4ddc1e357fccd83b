-- ===== src/Api/Workflows.antt =====
-- `Registry.names` of src/workflow_engine/registry.py, and the endpoint /workflows.
use platform_forge.Api.{answer, Response}
use platform_forge.Registry.{Step, Workflow, get}
use platform_forge.Models.Values.{text, array, field, end, item, Items, dict, nat, nil}
use Prim.Native.Char.{code}
use platform_forge.Prelude.{
  Option, List, false, [], String, map, sort_by, ◌||◌, ◌==◌, some, true, Bool, ◌∷◌, ◌&&◌, none, ltb,
}

-- The order of texts, by code points.
unfoldable pub str_le : String → String → Bool
str_le String.[] t = true
str_le (String.◌∷◌ c s) String.[] = false
str_le (String.◌∷◌ c s) (String.◌∷◌ d t) = ltb (code c) (code d) || (code c == code d && str_le s t)

unfoldable pub names {ℓ} : {H : Type ℓ} → List (Workflow H) → List String
names ws = sort_by str_le (map (λ w. w.name) ws)

module _ {ℓ} {H : Type ℓ} where
  unfoldable pub step_items : List (Step H) → Items
  step_items [] = nil
  step_items (s ∷ rest) =
      item
        (dict (
          field "name" (text s.name) (
            field "max_attempts" (nat s.max_attempts)
              (field "timeout_seconds" (nat s.timeout_seconds) end))))
        (step_items rest)

  -- The loop; `none` is the AssertionError.
  unfoldable pub workflow_items : List (Workflow H) → List String → Option Items
  workflow_items ws [] = some nil
  workflow_items ws (name ∷ rest) = elim (get ws name) [
    | none ↦ none
    | some wf ↦ elim (workflow_items ws rest) [
      | none ↦ none
      | some more ↦ some (
          item
            (dict (field "name" (text wf.name) (field "steps" (array (step_items wf.steps)) end)))
            more)
    ]
  ]

  unfoldable pub workflows : List (Workflow H) → Option Response
  workflows ws = elim (workflow_items ws (names ws)) [
    | none ↦ none
    | some out ↦ some (answer (dict (field "workflows" (array out) end)))
  ]
