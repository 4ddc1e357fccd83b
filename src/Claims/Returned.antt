-- ===== src/Claims/Returned.antt =====
-- submit_job, cancel_job and replay_step of src/workflow_engine/claims.py with the `load_job` that each
-- of them returns.
use platform_forge.Models.{Value}
use platform_forge.Registry.{Workflow}
use platform_forge.Claims.Submit.{submit_job}
use platform_forge.Claims.Load.{JobView, load_job}
use platform_forge.Store.{pure, M, ◌>>◌, ◌>>=◌}
use platform_forge.Claims.Cancel.{replay_step, cancel_job}
use platform_forge.Prelude.{ℕ, Bool, List, String}

unfoldable pub submit_and_load {ℓ} :
    {H : Type ℓ} → (ℕ → ℕ) → List (Workflow H) → String → String → Value → M (JobView × Bool)
submit_and_load uuid4 registry workflow_name key input = do
  (id, created) ← submit_job uuid4 registry workflow_name key input
  job ← load_job id
  pure (job, created)

unfoldable pub cancel_and_load : ℕ → M JobView
cancel_and_load job_id = cancel_job job_id >> load_job job_id

unfoldable pub replay_and_load : ℕ → String → M JobView
replay_and_load job_id step_name = replay_step job_id step_name >> load_job job_id
