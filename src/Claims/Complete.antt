-- ===== src/Claims/Complete.antt =====
-- COMPLETE_SUCCESS_SQL, `complete_success` and `complete_failure` of src/workflow_engine/claims.py.
-- `complete_failure` reads before it writes, and another transaction may commit in between: its
-- reads and its writes are two definitions.
use platform_forge.Prelude.{
  ℕ, ◌+◌, ltb, ◌==◌, ◌&&◌, not, Bool, true, false, String, Option, none, some, find, any,
  if◌then◌else◌,
}
use Prim.Native.String.{◌++◌ as str_append}
use platform_forge.Models.{
  Value, JobRow, StepRow, Db, JobStatus, StepStatus, Outcome, is_active, is_blocked, is_succeeded,
  job_is_running, job_is_cancelled,
}
use platform_forge.Metrics.{steps_completed, outcome_text}
use platform_forge.Registry.Jitter.{full_jitter}
use platform_forge.Store.{
  M, ◌>>=◌, ◌>>◌, pure, query, execute, commit, rollback, inc, notify, update_jobs, update_steps,
}
use platform_forge.Claims.Claimed.{
  ClaimedStep, Verdict, owned, finish_attempt, record_fence_reject, cancel_owned_step, slice_to,
}
use platform_forge.Claims.Claim.{job_with, has_active}

abbrev pub succeed_row : ℕ → Value → StepRow → StepRow
succeed_row now output s = record s {
  status = StepStatus.succeeded;
  output = some output;
  last_error = none;
  leased_until = none;
  worker_id = none;
  updated_at = now;
}

-- The WHERE clause of COMPLETE_SUCCESS_SQL.
unfoldable pub completable : ℕ → ℕ → Db → StepRow → Bool
completable step_id token d s = owned step_id token s && has_active (job_with s.job_id d)

-- COMPLETE_SUCCESS_SQL
unfoldable pub complete_success_sql : ClaimedStep → Value → M (Option StepRow)
complete_success_sql claimed output = do
  row ← query (λ d. find (completable claimed.step_id claimed.fencing_token d) d.steps)
  execute λ d.
      update_steps (completable claimed.step_id claimed.fencing_token d) (succeed_row d.now output)
        d
  pure row

abbrev pub unblock_row : ℕ → StepRow → StepRow
unblock_row now s = record s { status = StepStatus.pending; run_after = now; updated_at = now }

-- WHERE job_id = %s AND seq = %s AND status = 'blocked'
abbrev pub next_blocked : ℕ → ℕ → StepRow → Bool
next_blocked job_id seq s = s.job_id == job_id && s.seq == seq && is_blocked s.status

abbrev pub finish_job : ℕ → JobRow → JobRow
finish_job now j = record j { status = JobStatus.succeeded; updated_at = now }

-- EXISTS (SELECT 1 FROM steps WHERE job_id = %s AND status <> 'succeeded')
unfoldable pub unfinished : ℕ → Db → Bool
unfinished job_id d = any (λ s. s.job_id == job_id && not (is_succeeded s.status)) d.steps

-- The UPDATE of the job when no step was left to unblock.
unfoldable pub finish_job_sql : ℕ → Db → Db
finish_job_sql job_id d =
    update_jobs (λ j. j.id == job_id && job_is_running j.status && not (unfinished job_id d))
      (finish_job d.now) d

-- The statements of `complete_success` after its row was updated.
unfoldable pub complete_advance : ClaimedStep → M Verdict
complete_advance claimed = do
  finish_attempt claimed.step_id claimed.fencing_token Outcome.succeeded none
  unblocked ← query (λ d. find (next_blocked claimed.job_id (claimed.seq + 1)) d.steps)
  execute λ d. update_steps (next_blocked claimed.job_id (claimed.seq + 1)) (unblock_row d.now) d
  elim unblocked [ none ↦ execute (finish_job_sql claimed.job_id) | some _ ↦ pure tt ]
  execute notify
  commit
  inc (steps_completed claimed.name "succeeded")
  pure Verdict.succeeded

abbrev pub has_cancelled : Option JobRow → Bool
has_cancelled none = false
has_cancelled (some j) = job_is_cancelled j.status

-- The statements of `complete_success` when no row was updated.
unfoldable pub complete_refused : ClaimedStep → M Verdict
complete_refused claimed = do
  job ← query (job_with claimed.job_id)
  rollback
  elim (has_cancelled job) [
    | true ↦ cancel_owned_step claimed "job cancelled before complete"
    | false ↦ record_fence_reject claimed "stale complete_success" >> pure Verdict.rejected_fence
  ]

unfoldable pub complete_success : ClaimedStep → Value → M Verdict
complete_success claimed output = do
  row ← complete_success_sql claimed output
  elim row [ none ↦ complete_refused claimed | some _ ↦ complete_advance claimed ]

abbrev pub retry_row : ℕ → ℕ → String → StepRow → StepRow
retry_row now delay error s = record s {
  status = StepStatus.pending;
  run_after = now + delay;
  leased_until = none;
  worker_id = none;
  last_error = some (slice_to 2000 error);
  updated_at = now;
}

abbrev pub dead_letter_row : ℕ → String → StepRow → StepRow
dead_letter_row now error s = record s {
  status = StepStatus.dead_lettered;
  last_error = some (slice_to 2000 error);
  leased_until = none;
  worker_id = none;
  updated_at = now;
}

abbrev pub dead_letter_job : ℕ → JobRow → JobRow
dead_letter_job now j = record j { status = JobStatus.dead_lettered; updated_at = now }

-- The arguments of `complete_failure` after the claimed step; `uniform` is the generator's.
pub record Failure : Type 0 where
  pub error : String
  pub outcome : Outcome
  pub base_backoff : ℕ
  pub max_backoff : ℕ
  pub uniform : ℕ → ℕ → ℕ
  pub retryable : Bool

-- Back to pending after a jittered delay.
unfoldable pub fail_retry : ClaimedStep → Failure → M Verdict
fail_retry claimed f = do
  let delay = full_jitter claimed.attempt_count f.base_backoff f.max_backoff f.uniform
  execute λ d.
      update_steps (owned claimed.step_id claimed.fencing_token) (retry_row d.now delay f.error) d
  finish_attempt claimed.step_id claimed.fencing_token f.outcome (some f.error)
  commit
  inc (steps_completed claimed.name (outcome_text f.outcome))
  pure Verdict.retry

-- The step is dead-lettered, and the job with it.
unfoldable pub fail_dead_letter : ClaimedStep → Failure → M Verdict
fail_dead_letter claimed f = do
  execute λ d.
      update_steps (owned claimed.step_id claimed.fencing_token) (dead_letter_row d.now f.error) d
  execute
      λ d. update_jobs (λ j. j.id == claimed.job_id && is_active j.status) (dead_letter_job d.now) d
  finish_attempt claimed.step_id claimed.fencing_token f.outcome (some f.error)
  commit
  inc (steps_completed claimed.name "dead_lettered")
  pure Verdict.dead_lettered

-- f"stale complete ({outcome})"
abbrev pub stale_error : Outcome → String
stale_error outcome = str_append "stale complete (" (str_append (outcome_text outcome) ")")

-- What `complete_failure` writes, after it read the status of the job and whether the step is still
-- its own.
unfoldable pub failure_write : ClaimedStep → Failure → Bool → Bool → M Verdict
failure_write claimed f cancelled still_ours =
    if not still_ours
    then (if cancelled
        then (do
          finish_attempt claimed.step_id claimed.fencing_token Outcome.cancelled (some f.error)
          commit
          inc (steps_completed claimed.name "cancelled")
          pure Verdict.cancelled)
        else (record_fence_reject claimed (stale_error f.outcome) >> pure Verdict.rejected_fence))
    else (if cancelled
        then cancel_owned_step claimed f.error
        else (if f.retryable && ltb claimed.attempt_count claimed.max_attempts
            then fail_retry claimed f
            else fail_dead_letter claimed f))

abbrev pub is_found {ℓ} : {A : Type ℓ} → Option A → Bool
is_found none = false
is_found (some _) = true

unfoldable pub complete_failure : ClaimedStep → Failure → M Verdict
complete_failure claimed f = do
  job ← query (job_with claimed.job_id)
  still_ours ← query (λ d. find (owned claimed.step_id claimed.fencing_token) d.steps)
  failure_write claimed f (has_cancelled job) (is_found still_ours)
