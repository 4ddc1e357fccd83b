-- ===== src/Claims/Claimed.antt =====
-- `ClaimedStep` of src/workflow_engine/claims.py, and the closing of an attempt that the complete
-- paths share.
use platform_forge.Prelude.{ℕ, zero, suc, ◌==◌, ◌&&◌, Bool, String, List, Option, none, some}
use platform_forge.Models.Values.{Fields}
use platform_forge.Models.{
  Value, JobStatus, StepStatus, Outcome, AttemptRow, StepRow, is_running, is_started,
}
use platform_forge.Metrics.{fencing_reject, steps_completed}
use platform_forge.Store.{M, ◌>>◌, pure, execute, commit, inc, update_attempts, update_steps}

pub record ClaimedStep : Type 0 where
  pub step_id : ℕ
  pub job_id : ℕ
  pub seq : ℕ
  pub name : String
  pub fencing_token : ℕ
  pub attempt_count : ℕ
  pub max_attempts : ℕ
  pub timeout_seconds : ℕ
  pub steal : Bool
  pub workflow_name : String
  pub idempotency_key : String
  pub job_input : Value
  pub upstream_outputs : List (String × Option Value)
  pub job_status : JobStatus

-- dict(job["input"] or {}), of an input that is a dictionary or null.
abbrev pub input_dict : Value → Value
input_dict v = elim v [ Value.null ↦ Value.dict Fields.end | w ↦ w ]

-- What the complete operations return.
pub data Verdict : Type 0 where
  succeeded cancelled rejected_fence retry dead_lettered : Verdict

-- error[:n]
unfoldable pub slice_to : ℕ → String → String
slice_to zero s = String.[]
slice_to (suc n) String.[] = String.[]
slice_to (suc n) (String.◌∷◌ c s) = String.◌∷◌ c (slice_to n s)

-- error[:2000] if error else None
unfoldable pub stored_error : Option String → Option String
stored_error none = none
stored_error (some String.[]) = none
stored_error (some (String.◌∷◌ c s)) = some (slice_to 2000 (String.◌∷◌ c s))

-- WHERE step_id = %s AND fencing_token = %s AND outcome = 'started'
abbrev pub open_attempt : ℕ → ℕ → AttemptRow → Bool
open_attempt step_id token a =
    a.step_id == step_id && a.fencing_token == token && is_started a.outcome

abbrev pub close_attempt : ℕ → Outcome → Option String → AttemptRow → AttemptRow
close_attempt now outcome error a = record a {
  finished_at = some now;
  outcome = outcome;
  error = error;
}

-- `_finish_attempt`
unfoldable pub finish_attempt : ℕ → ℕ → Outcome → Option String → M (Unit {0})
finish_attempt step_id token outcome error = execute λ d.
    update_attempts (open_attempt step_id token) (close_attempt d.now outcome (stored_error error))
      d

-- `_record_fence_reject`
unfoldable pub record_fence_reject : ClaimedStep → String → M (Unit {0})
record_fence_reject claimed error = do
  inc (fencing_reject claimed.name)
  inc (steps_completed claimed.name "rejected_fence")
  execute λ d.
      update_attempts (open_attempt claimed.step_id claimed.fencing_token)
        (close_attempt d.now Outcome.rejected_fence (some (slice_to 2000 error))) d
  commit

-- WHERE id = %s AND fencing_token = %s AND status = 'running'
abbrev pub owned : ℕ → ℕ → StepRow → Bool
owned step_id token s = s.id == step_id && s.fencing_token == token && is_running s.status

abbrev pub cancel_row : ℕ → StepRow → StepRow
cancel_row now s = record s {
  status = StepStatus.cancelled;
  leased_until = none;
  worker_id = none;
  updated_at = now;
}

-- `_cancel_owned_step`
unfoldable pub cancel_owned_step : ClaimedStep → String → M Verdict
cancel_owned_step claimed error = do
  execute λ d. update_steps (owned claimed.step_id claimed.fencing_token) (cancel_row d.now) d
  finish_attempt claimed.step_id claimed.fencing_token Outcome.cancelled (some error)
  commit
  inc (steps_completed claimed.name "cancelled")
  pure Verdict.cancelled
