-- ===== src/Claims/Heartbeat.antt =====
-- HEARTBEAT_SQL and `heartbeat` of src/workflow_engine/claims.py.
use platform_forge.Prelude.{
  ℕ, ◌+◌, ◌==◌, ◌&&◌, ◌||◌, Bool, false, String, Option, none, some, find, if◌then◌else◌, str_eq,
}
use platform_forge.Models.{
  JobRow, StepRow, Db, JobStatus, is_running, is_cancelled, job_is_cancelled,
}
use platform_forge.Store.{M, ◌>>=◌, ◌>>◌, pure, query, execute, commit, update_steps}
use platform_forge.Claims.Claim.{job_with}

-- s.worker_id = %(worker_id)s, which is not true of NULL
abbrev pub is_worker : Option String → String → Bool
is_worker none w = false
is_worker (some v) w = str_eq v w

-- The WHERE clause of HEARTBEAT_SQL on the step.
unfoldable pub beats : ℕ → String → ℕ → StepRow → Bool
beats step_id worker_id token s =
    s.id == step_id
    && is_worker s.worker_id worker_id
    && s.fencing_token == token
    && is_running s.status

abbrev pub renew_row : ℕ → ℕ → StepRow → StepRow
renew_row now lease_ttl s = record s { leased_until = some (now + lease_ttl); updated_at = now }

-- A step row with its job, `JOIN jobs j ON j.id = s.job_id`.
unfoldable pub joined : (StepRow → Bool) → Db → Option (StepRow × JobRow)
joined p d = elim (find p d.steps) [
  | none ↦ none
  | some s ↦ elim (job_with s.job_id d) [ none ↦ none | some j ↦ some (s, j) ]
]

-- HEARTBEAT_SQL: the status of the job, if a row was renewed.
unfoldable pub heartbeat_sql : ℕ → String → ℕ → ℕ → M (Option JobStatus)
heartbeat_sql step_id worker_id token lease_ttl = do
  row ← query (joined (beats step_id worker_id token))
  elim row [
    | none ↦ pure none
    | some (s, j) ↦ do
      execute λ d. update_steps (beats step_id worker_id token) (renew_row d.now lease_ttl) d
      pure (some j.status)
  ]

-- The second look, at the step of this token: whether it or its job was cancelled.
unfoldable pub heartbeat_missed : ℕ → ℕ → Db → Option JobStatus
heartbeat_missed step_id token d =
    elim (joined (λ s. s.id == step_id && s.fencing_token == token) d) [
      | none ↦ none
      | some (s, j) ↦
          if job_is_cancelled j.status || is_cancelled s.status
          then some JobStatus.cancelled
          else none
    ]

unfoldable pub heartbeat : ℕ → String → ℕ → ℕ → M (Option JobStatus)
heartbeat step_id worker_id token lease_ttl = do
  row ← heartbeat_sql step_id worker_id token lease_ttl
  commit
  elim row [ some status ↦ pure (some status) | none ↦ query (heartbeat_missed step_id token) ]
