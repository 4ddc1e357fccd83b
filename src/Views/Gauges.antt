-- ===== src/Views/Gauges.antt =====
-- What the gauges say of the tables.
use platform_forge.Invariant.{Inv}
use platform_forge.Effects.{at}
use platform_forge.Metrics.{Metric}
use platform_forge.Models.{JobStatus, is_dead_lettered, same_status, Db, StepRow, JobRow}
use platform_forge.Claims.Claim.{job_with, claimable}
use platform_forge.Claims.Gauges.{
  gauge_snapshot, is_counted, count_into, is_runnable, status_count, age_of, least_run_after,
  group_by_status,
}
use platform_forge.Prelude.{
  ℕ, select-cong, arith, ◌≡◌, refl, if◌then◌else◌, [], true, ◌&&◌, List, ◌∷◌, In, count, select,
  count-cong, ◌+◌, ok,
}

module _ (d : Db) (v : Inv d) where
  -- A step of a dead-lettered job neither waits nor runs.
  runnable-claimable : (s : StepRow) → In s d.steps → is_runnable d s ≡ claimable d s
  unfolding claimable
  runnable-claimable s m =
      let (j, e) = v.keyed.has_job s m in let fit = v.coherent j s m e in ground arith

  dead_counted :
      (s : StepRow)
      → In s d.steps
      → (is_counted (job_with s.job_id d) && is_dead_lettered s.status) ≡ is_dead_lettered s.status
  dead_counted s m =
      let (j, e) = v.keyed.has_job s m in let fit = v.coherent j s m e in ground arith

  -- Where the invariant holds, the gauge of runnable steps is the number of rows that CLAIM_SQL may
  -- claim, although it also counts steps of dead-lettered jobs.
  pub runnable_gauge :
      (ms : List Metric)
      → (gauge_snapshot (at d ms)).0
        ≡ ok (record {
          runnable = count (claimable d) d.steps;
          oldest_age = age_of d.now (least_run_after (select (claimable d) d.steps));
          dead_lettered = count (λ s. is_dead_lettered s.status) d.steps;
          jobs_by_status = group_by_status d.jobs;
        })
  unfolding gauge_snapshot
  runnable_gauge ms = ground (
    arith,
    count-cong (is_runnable d) (claimable d) d.steps runnable-claimable,
    select-cong (is_runnable d) (claimable d) d.steps runnable-claimable,
    count-cong (λ s. is_counted (job_with s.job_id d) && is_dead_lettered s.status)
        (λ s. is_dead_lettered s.status) d.steps dead_counted,
  )

same_trans : (a b c : JobStatus) → same_status a b ≡ true → same_status a c ≡ same_status b c
same_trans a b c e = ground arith

status_count-count_into :
    (t u : JobStatus) (m : List (JobStatus × ℕ))
    → status_count t (count_into u m) ≡ (if same_status u t then 1 else 0) + status_count t m
unfolding status_count count_into
status_count-count_into t u [] = ground arith
status_count-count_into t u ((w, n) ∷ m) =
    ground (arith, status_count-count_into t u m, same_trans w u t)

-- Every status has a gauge, and it is the number of the jobs in that status.
pub status_gauge :
    (t : JobStatus) (jobs : List JobRow)
    → status_count t (group_by_status jobs) ≡ count (λ j. same_status j.status t) jobs
unfolding status_count group_by_status count
status_gauge t [] = refl
status_gauge t (j ∷ rest) =
    ground (arith, status_count-count_into t j.status (group_by_status rest), status_gauge t rest)
