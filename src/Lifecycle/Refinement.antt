-- ===== src/Lifecycle/Refinement.antt =====
-- The operations of src/workflow_engine/claims.py refine the state machines.
use platform_forge.Claims.Submit.{submit_job}
use platform_forge.Invariant.{Inv}
use platform_forge.Models.{Value, Db}
use platform_forge.Store.{Session, Error}
use platform_forge.Metrics.{Metric}
use platform_forge.Registry.{Workflow}
use platform_forge.Effects.{at}
use platform_forge.Prelude.{ℕ, List, Bool, String, Result}

module _ {ℓ} {H : Type ℓ} (uuid4 : ℕ → ℕ) (registry : List (Workflow H)) (name key : String)
    (input : Value) (d : Db) (ms : List Metric) (v : Inv d) where
  abbrev submitted : Result Error (ℕ × Bool) × Session
  submitted = submit_job uuid4 registry name key input (at d ms)
