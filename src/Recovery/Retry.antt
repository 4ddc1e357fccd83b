-- ===== src/Recovery/Retry.antt =====
-- `complete_failure` gives a step that may be tried again back, for a bounded delay.
use platform_forge.Invariant.{Inv}
use platform_forge.Metrics.{Metric}
use platform_forge.Registry.Jitter.{full_jitter_bounds, IsUniform, full_jitter}
use platform_forge.Effects.{published, at}
use platform_forge.Claims.Claim.{has_active, job_with, claimable}
use platform_forge.Claims.Complete.{
  retry_row, fail_dead_letter, Failure, has_cancelled, fail_retry, failure_write, complete_failure,
}
use platform_forge.Models.{is_running, StepRow, Db}
use platform_forge.Effects.Failure.{failure_retry, failure_cancelled, failure_stale, failure_dead}
use platform_forge.Claims.Claimed.{
  finish_attempt, cancel_owned_step, owned, record_fence_reject, Verdict, ClaimedStep,
}
use platform_forge.Prelude.{
  true, ok, ◌+◌, ◌≡◌, ◌<◌, some, find-some, In, ltb, inl, In-update, ◌&&◌, Bool-cases, arith, List,
  false, Option-cases, inr, find,
}

module _ (c : ClaimedStep) (f : Failure) (d : Db) (ms : List Metric) (v : Inv d) where
  abbrev after : Db
  after = published (complete_failure c f (at d ms))

  failure_now : after.now ≡ d.now
  unfolding complete_failure failure_write cancel_owned_step record_fence_reject finish_attempt
      fail_retry fail_dead_letter
  failure_now = ground arith

  -- A running step belongs to an active job.
  running_active :
      (p : StepRow)
      → In p d.steps
      → is_running p.status ≡ true
      → has_active (job_with p.job_id d) ≡ true
  running_active p m runs =
      let (j, found) = v.keyed.has_job p m in let fit = v.coherent j p m found in ground arith

  -- The verdict `retry` comes from a row that is the claim's own, with a retry left.
  retry_row_found :
      (complete_failure c f (at d ms)).0 ≡ ok Verdict.retry
      → (p : StepRow) × (find (owned c.step_id c.fencing_token) d.steps ≡ some p)
        × (has_cancelled (job_with c.job_id d) ≡ false)
        × ((f.retryable && ltb c.attempt_count c.max_attempts) ≡ true)
  retry_row_found e = elim (Option-cases (find (owned c.step_id c.fencing_token) d.steps)) [
    | inl n ↦ absurd (ground (arith, (failure_stale c f d ms n).2))
    | inr (p, h) ↦ elim (Bool-cases (has_cancelled (job_with c.job_id d))) [
      | inl k ↦ absurd (ground (arith, (failure_cancelled c f d ms p h k).2))
      | inr k ↦ elim (Bool-cases (f.retryable && ltb c.attempt_count c.max_attempts)) [
        | inl a ↦ (p, h, k, a)
        | inr a ↦ absurd (ground (arith, (failure_dead c f d ms p h k a).2))
      ]
    ]
  ]

  -- Where the invariant holds, a failure answered by `retry` had a retry left, and its step can be claimed again, with its token,
  -- once `max_backoff` has passed, if `uniform` stays within its bounds.
  pub retried_claimable :
      IsUniform f.uniform
      → (complete_failure c f (at d ms)).0 ≡ ok Verdict.retry
      → (c.attempt_count < c.max_attempts)
        × (t : StepRow) × In t after.steps
        × (t.id ≡ c.step_id)
        × (t.fencing_token ≡ c.fencing_token)
        × (claimable (record after { now = after.now + f.max_backoff }) t ≡ true)
  unfolding claimable job_with
  retried_claimable within e =
      let (p, h, k, again) = retry_row_found e in
      let mine = owned c.step_id c.fencing_token in
      let (m, hit) = find-some mine p d.steps h in
      let (steps, jobs, _) = failure_retry c f d ms p h k again in
      let wait = full_jitter c.attempt_count f.base_backoff f.max_backoff f.uniform in
      let (_, short, _) =
        full_jitter_bounds c.attempt_count f.base_backoff f.max_backoff f.uniform within in
      let moved = In-update mine (retry_row d.now wait f.error) m in
      let active = running_active p m (ground arith) in
      (
        ground arith,
        retry_row d.now wait f.error p,
        rw steps (rw hit at moved),
        ground arith,
        ground arith,
        ground (arith, jobs, active, failure_now, short),
      )
