-- ===== src/Claims/Cancel.antt =====
-- `cancel_job` and `replay_step` of src/workflow_engine/claims.py, up to the `load_job` that each
-- returns: the caller reads the job from the state that they leave.
use platform_forge.Prelude.{
  ℕ, ◌==◌, ◌&&◌, ◌||◌, not, Bool, String, none, some, find, str_eq, if◌then◌else◌,
}
use platform_forge.Models.{
  JobRow, StepRow, JobStatus, StepStatus, is_active, is_pending, is_blocked, is_running,
  is_dead_lettered, job_is_dead_lettered,
}
use platform_forge.Store.{
  M, ◌>>=◌, ◌>>◌, raise, query, execute, commit, notify, update_jobs, update_steps,
  conflict_terminal, not_dead_lettered, missing_job, missing_step,
}
use platform_forge.Claims.Claimed.{cancel_row}
use platform_forge.Claims.Claim.{job_with}

abbrev pub cancel_job_row : ℕ → JobRow → JobRow
cancel_job_row now j = record j { status = JobStatus.cancelled; updated_at = now }

-- WHERE id = %s AND status IN ('queued', 'running')
abbrev pub active_job : ℕ → JobRow → Bool
active_job job_id j = j.id == job_id && is_active j.status

-- WHERE job_id = %s AND status IN ('pending', 'blocked', 'running')
abbrev pub live_step : ℕ → StepRow → Bool
live_step job_id s =
    s.job_id == job_id && (is_pending s.status || is_blocked s.status || is_running s.status)

unfoldable pub cancel_job : ℕ → M (Unit {0})
cancel_job job_id = do
  row ← query (λ d. find (active_job job_id) d.jobs)
  execute λ d. update_jobs (active_job job_id) (cancel_job_row d.now) d
  elim row [
    | none ↦ do
      exists ← query (job_with job_id)
      elim exists [ none ↦ raise (missing_job job_id) | some _ ↦ raise conflict_terminal ]
    | some _ ↦ do execute λ d. update_steps (live_step job_id) (cancel_row d.now) d; commit
  ]

abbrev pub replay_row : ℕ → StepRow → StepRow
replay_row now s = record s {
  status = StepStatus.pending;
  run_after = now;
  last_error = none;
  leased_until = none;
  worker_id = none;
  attempt_count = 0;
  updated_at = now;
}

abbrev pub resume_job : ℕ → JobRow → JobRow
resume_job now j = record j { status = JobStatus.running; updated_at = now }

-- The two updates of `replay_step`.
unfoldable pub replay_write : ℕ → ℕ → M (Unit {0})
replay_write job_id step_id = do
  execute λ d. update_steps (λ s. s.id == step_id && is_dead_lettered s.status) (replay_row d.now) d
  execute
      λ d. update_jobs (λ j. j.id == job_id && job_is_dead_lettered j.status) (resume_job d.now) d
  execute notify
  commit

unfoldable pub replay_step : ℕ → String → M (Unit {0})
replay_step job_id step_name = do
  job ← query (job_with job_id)
  elim job [
    | none ↦ raise (missing_job job_id)
    | some _ ↦ do
      step ← query (λ d. find (λ s. s.job_id == job_id && str_eq s.name step_name) d.steps)
      elim step [
        | none ↦ raise (missing_step step_name)
        | some s ↦
            if not (is_dead_lettered s.status)
            then raise not_dead_lettered
            else replay_write job_id s.id
      ]
  ]
