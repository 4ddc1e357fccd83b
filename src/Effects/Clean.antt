-- ===== src/Effects/Clean.antt =====
-- Every operation ends its transactions: when it returns or raises, nothing is left uncommitted,
-- but for a submit or an assertion that raises.
use platform_forge.Store.{Session}
use platform_forge.Claims.Claim.{
  start_queued, claim_sql, claim_row, claim_granted, insert_attempt, claim_step, claim_cancelled,
}
use platform_forge.Effects.{at}
use platform_forge.Metrics.{Metric}
use platform_forge.Models.{Value, Db}
use platform_forge.Claims.Heartbeat.{heartbeat, heartbeat_sql}
use platform_forge.Claims.Cancel.{active_job, replay_write, cancel_job, replay_step, cancel_job_row}
use platform_forge.Claims.Complete.{
  fail_dead_letter, complete_success, Failure, complete_advance, complete_refused, fail_retry,
  failure_write, complete_failure, complete_success_sql,
}
use platform_forge.Claims.Claimed.{
  ClaimedStep, finish_attempt, cancel_owned_step, record_fence_reject,
}
use platform_forge.Prelude.{ℕ, List, update-none, ◌≡◌, arith, String, Bool}

-- Nothing is pending in the session that a call leaves.
abbrev pub IsClean {ℓ} : {A : Type ℓ} → A × Session → Type 0
IsClean r = r.1.work ≡ r.1.committed

module _ (d : Db) (ms : List Metric) where
  heartbeat-IsClean :
      (step_id : ℕ) (worker : String) (token ttl : ℕ)
      → IsClean (heartbeat step_id worker token ttl (at d ms))
  unfolding heartbeat heartbeat_sql
  heartbeat-IsClean step_id worker token ttl = ground arith

  pub success-IsClean :
      (c : ClaimedStep) (output : Value) → IsClean (complete_success c output (at d ms))
  unfolding complete_success complete_success_sql complete_refused cancel_owned_step
      record_fence_reject finish_attempt complete_advance
  success-IsClean c output = ground arith

  failure-IsClean : (c : ClaimedStep) (f : Failure) → IsClean (complete_failure c f (at d ms))
  unfolding complete_failure failure_write cancel_owned_step record_fence_reject finish_attempt
      fail_retry fail_dead_letter
  failure-IsClean c f = ground arith

  pub replay-IsClean : (job_id : ℕ) (name : String) → IsClean (replay_step job_id name (at d ms))
  unfolding replay_step replay_write
  replay-IsClean job_id name = ground arith

  pub cancel-IsClean : (job_id : ℕ) → IsClean (cancel_job job_id (at d ms))
  unfolding cancel_job
  cancel-IsClean job_id =
      ground (arith, update-none (active_job job_id) (cancel_job_row d.now) d.jobs)

  pub claim-IsClean :
      (locked : ℕ → Bool) (worker : String) (ttl : ℕ)
      → IsClean (claim_step locked worker ttl (at d ms))
  unfolding claim_step claim_sql claim_row insert_attempt start_queued claim_granted claim_cancelled
      finish_attempt
  claim-IsClean locked worker ttl = ground arith

  -- Whatever an operation on a leased step, on a job or on a dead letter answers, it leaves nothing
  -- pending, if nothing was pending before.
  pub calls-IsClean :
      ((locked : ℕ → Bool) (worker : String) (ttl : ℕ)
        → IsClean (claim_step locked worker ttl (at d ms)))
      × ((step_id : ℕ) (worker : String) (token ttl : ℕ)
          → IsClean (heartbeat step_id worker token ttl (at d ms)))
      × ((c : ClaimedStep) (output : Value) → IsClean (complete_success c output (at d ms)))
      × ((c : ClaimedStep) (f : Failure) → IsClean (complete_failure c f (at d ms)))
      × ((job_id : ℕ) → IsClean (cancel_job job_id (at d ms)))
      × ((job_id : ℕ) (name : String) → IsClean (replay_step job_id name (at d ms)))
  calls-IsClean = (
    claim-IsClean, heartbeat-IsClean, success-IsClean, failure-IsClean, cancel-IsClean,
    replay-IsClean,
  )
