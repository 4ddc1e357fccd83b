-- ===== src/Claims/Gauges.antt =====
-- `gauge_snapshot` and `refresh_gauges` of src/workflow_engine/claims.py, with the gauges of metrics.py.
-- An age is in microseconds.
use platform_forge.Models.{
  is_active, same_status, StepRow, is_dead_lettered, JobStatus, JobRow, Db, job_is_dead_lettered,
}
use platform_forge.Claims.Claim.{is_ready, job_with}
use platform_forge.Store.{M, query, pure, ◌>>=◌}
use platform_forge.Prelude.{
  ℕ, select, min, false, ◌||◌, ◌-◌, none, if◌then◌else◌, ◌&&◌, Bool, Option, List, [], ◌∷◌, some,
  count, ◌+◌,
}

pub record Snapshot : Type 0 where
  pub runnable : ℕ
  pub oldest_age : ℕ
  pub dead_lettered : ℕ
  pub jobs_by_status : List (JobStatus × ℕ)

-- WHERE j.status IN ('queued', 'running', 'dead_lettered'), on the job of a step.
abbrev pub is_counted : Option JobRow → Bool
is_counted none = false
is_counted (some j) = is_active j.status || job_is_dead_lettered j.status

-- A row that FILTER counts as runnable.
abbrev pub is_runnable : Db → StepRow → Bool
is_runnable d s = is_counted (job_with s.job_id d) && is_ready d.now s

-- min(run_after), NULL of no row.
unfoldable pub least_run_after : List StepRow → Option ℕ
least_run_after [] = none
least_run_after (s ∷ rest) = elim (least_run_after rest) [
  | none ↦ some s.run_after
  | some t ↦ some (min s.run_after t)
]

-- float(oldest_age or 0)
abbrev pub age_of : ℕ → Option ℕ → ℕ
age_of now none = 0
age_of now (some t) = now - t

-- One row into the groups of GROUP BY status.
unfoldable pub count_into : JobStatus → List (JobStatus × ℕ) → List (JobStatus × ℕ)
count_into t [] = (t, 1) ∷ []
count_into t ((u, n) ∷ m) = if same_status u t then (u, n + 1) ∷ m else (u, n) ∷ count_into t m

-- SELECT status, count(*) FROM jobs GROUP BY status
unfoldable pub group_by_status : List JobRow → List (JobStatus × ℕ)
group_by_status [] = []
group_by_status (j ∷ rest) = count_into j.status (group_by_status rest)

unfoldable pub gauge_snapshot : M Snapshot
gauge_snapshot = query λ d. record {
  runnable = count (is_runnable d) d.steps;
  oldest_age = age_of d.now (least_run_after (select (is_runnable d) d.steps));
  dead_lettered =
      count (λ s. is_counted (job_with s.job_id d) && is_dead_lettered s.status) d.steps;
  jobs_by_status = group_by_status d.jobs;
}

-- snap["jobs_by_status"].get(status, 0)
unfoldable pub status_count : JobStatus → List (JobStatus × ℕ) → ℕ
status_count t [] = 0
status_count t ((u, n) ∷ m) = if same_status u t then n else status_count t m

-- RUNNABLE_STEPS, OLDEST_RUNNABLE_AGE, DEAD_LETTERED_STEPS and JOBS_BY_STATUS.
pub record Gauges : Type 0 where
  pub runnable_steps : ℕ
  pub oldest_runnable_age : ℕ
  pub dead_lettered_steps : ℕ
  pub jobs_by_status : JobStatus → ℕ

-- What `refresh_gauges` sets: the loop names every status.
unfoldable pub refresh_gauges : M Gauges
refresh_gauges = do
  snap ← gauge_snapshot
  pure (record {
    runnable_steps = snap.runnable;
    oldest_runnable_age = snap.oldest_age;
    dead_lettered_steps = snap.dead_lettered;
    jobs_by_status = λ status. status_count status snap.jobs_by_status;
  })
