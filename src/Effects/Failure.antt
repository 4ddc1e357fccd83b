-- ===== src/Effects/Failure.antt =====
-- `complete_failure`: the tables that it leaves on each branch, and the invariant.
use platform_forge.Metrics.{Metric}
use platform_forge.Claims.Claim.{job_with}
use platform_forge.Invariant.{Inv}
use platform_forge.Registry.Jitter.{full_jitter}
use platform_forge.Effects.{published, at}
use platform_forge.Models.{Db, is_active, StepRow}
use platform_forge.Invariant.RowWise.{same-Inv}
use platform_forge.Invariant.Fail.{retry-Inv, dead_letter-Inv}
use platform_forge.Store.{Session, Error}
use platform_forge.Claims.Claimed.{
  owned, cancel_row, ClaimedStep, finish_attempt, cancel_owned_step, record_fence_reject, Verdict,
}
use platform_forge.Claims.Complete.{
  Failure, fail_dead_letter, dead_letter_job, fail_retry, failure_write, retry_row, has_cancelled,
  complete_failure, dead_letter_row,
}
use platform_forge.Effects.Success.{IsIssued, cancelled_unowned}
use platform_forge.Prelude.{
  ℕ, inl, ◌∙◌, In, inr, arith, Result, ap, Bool-cases, ◌&&◌, if◌then◌else◌, Option-cases, ltb,
  find-some, ◌==◌, Bool, none, false, some, find, List, ◌≡◌, update, ok, true,
}

module _ (c : ClaimedStep) (f : Failure) (d : Db) (ms : List Metric) where
  abbrev outcome : Result Error Verdict × Session
  outcome = complete_failure c f (at d ms)

  abbrev mine : StepRow → Bool
  mine = owned c.step_id c.fencing_token

  abbrev tries_again : Bool
  tries_again = f.retryable && ltb c.attempt_count c.max_attempts

  -- The delay of the retry.
  abbrev delay : ℕ
  delay = full_jitter c.attempt_count f.base_backoff f.max_backoff f.uniform

  -- Without its row the failure touches attempts only.
  pub failure_stale :
      find mine d.steps ≡ none
      → ((published outcome).steps ≡ d.steps)
        × ((published outcome).jobs ≡ d.jobs)
        × (outcome.0
            ≡ ok (
                if has_cancelled (job_with c.job_id d)
                then Verdict.cancelled
                else Verdict.rejected_fence))
  unfolding complete_failure failure_write record_fence_reject finish_attempt
  failure_stale e = ground arith

  pub failure_cancelled :
      (p : StepRow)
      → find mine d.steps ≡ some p
      → has_cancelled (job_with c.job_id d) ≡ true
      → ((published outcome).steps ≡ update mine (cancel_row d.now) d.steps)
        × ((published outcome).jobs ≡ d.jobs)
        × (outcome.0 ≡ ok Verdict.cancelled)
  unfolding complete_failure failure_write cancel_owned_step finish_attempt
  failure_cancelled p e h = ground arith

  pub failure_retry :
      (p : StepRow)
      → find mine d.steps ≡ some p
      → has_cancelled (job_with c.job_id d) ≡ false
      → tries_again ≡ true
      → ((published outcome).steps ≡ update mine (retry_row d.now delay f.error) d.steps)
        × ((published outcome).jobs ≡ d.jobs)
        × (outcome.0 ≡ ok Verdict.retry)
  unfolding complete_failure failure_write fail_retry finish_attempt
  failure_retry p e h again = ground arith

  pub failure_dead :
      (p : StepRow)
      → find mine d.steps ≡ some p
      → has_cancelled (job_with c.job_id d) ≡ false
      → tries_again ≡ false
      → ((published outcome).steps ≡ update mine (dead_letter_row d.now f.error) d.steps)
        × ((published outcome).jobs
            ≡ update (λ j. j.id == c.job_id && is_active j.status) (dead_letter_job d.now) d.jobs)
        × (outcome.0 ≡ ok Verdict.dead_lettered)
  unfolding complete_failure failure_write fail_dead_letter finish_attempt
  failure_dead p e h again = ground arith

  module _ (v : Inv d) (is : IsIssued d c) where
    pub owned_row :
        (p : StepRow)
        → find mine d.steps ≡ some p
        → In p d.steps × (mine p ≡ true) × (p.job_id ≡ c.job_id)
    owned_row p e =
        let (m, h) = find-some mine p d.steps e in
        let same : p ≡ is.row = v.keyed.step_id p is.row m is.row_in (ground (arith, is.row_id)) in
        (m, h, ap (λ (s : StepRow). s.job_id) same ∙ is.row_job)

    dead-Inv :
        (p : StepRow)
        → find mine d.steps ≡ some p
        → has_cancelled (job_with c.job_id d) ≡ false
        → tries_again ≡ false
        → Inv (published outcome)
    dead-Inv p e h again =
        let (m, hit, ej) = owned_row p e in
        let (steps, jobs, _) = failure_dead p e h again in
        dead_letter-Inv d _ p c.step_id c.fencing_token d.now v m hit f.error steps (rw ej jobs)

    -- A failure keeps the invariant of the tables on every branch.
    pub complete_failure-Inv : Inv (published outcome)
    complete_failure-Inv = elim (Option-cases (find mine d.steps)) [
      | inl e ↦ let (steps, jobs, _) = failure_stale e in same-Inv d _ steps jobs v
      | inr (p, e) ↦ elim (Bool-cases (has_cancelled (job_with c.job_id d))) [
        | inl h ↦
            let (steps, jobs, _) = failure_cancelled p e h in
            same-Inv d _ (steps ∙ cancelled_unowned c d v is h) jobs v
        | inr h ↦ elim (Bool-cases tries_again) [
          | inl again ↦
              let (m, hit, _) = owned_row p e in
              let (steps, jobs, _) = failure_retry p e h again in
              retry-Inv d _ p c.step_id c.fencing_token d.now v m hit delay f.error steps jobs
          | inr again ↦ dead-Inv p e h again
        ]
      ]
    ]
