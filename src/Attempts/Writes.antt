-- ===== src/Attempts/Writes.antt =====
-- What each operation writes to the table `attempts`.
use platform_forge.Claims.Claim.{job_with}
use platform_forge.Effects.{at, published}
use platform_forge.Claims.Cancel.{replay_step, cancel_job, replay_write}
use platform_forge.Claims.Heartbeat.{heartbeat_sql, heartbeat}
use platform_forge.Metrics.{Metric}
use platform_forge.Claims.Complete.{
  complete_success_sql, failure_write, complete_failure, fail_retry, complete_advance, stale_error,
  Failure, has_cancelled, completable, complete_refused, complete_success, finish_job_sql,
  fail_dead_letter,
}
use platform_forge.Models.{Db, Outcome, Value}
use platform_forge.Claims.Claimed.{
  open_attempt, close_attempt, slice_to, stored_error, cancel_owned_step, record_fence_reject,
  owned, finish_attempt, ClaimedStep,
}
use platform_forge.Prelude.{
  ℕ, ◌≡◌, update, arith, inl, none, Option, some, Option-cases, List, find, Bool-cases, String, inr,
}

-- The open attempt of a lease is closed in some way, if it is there.
pub record Closes (step_id token : ℕ) (d d' : Db) : Type 0 where
  pub outcome : Outcome
  pub error : Option String
  pub attempts :
      d'.attempts
      ≡ update (open_attempt step_id token) (close_attempt d.now outcome error) d.attempts

module _ (d : Db) (ms : List Metric) where
  pub heartbeat_attempts :
      (step_id : ℕ) (worker : String) (token ttl : ℕ)
      → (published (heartbeat step_id worker token ttl (at d ms))).attempts ≡ d.attempts
  unfolding heartbeat heartbeat_sql
  heartbeat_attempts step_id worker token ttl = ground arith

  pub cancel_attempts :
      (job_id : ℕ) → (published (cancel_job job_id (at d ms))).attempts ≡ d.attempts
  unfolding cancel_job
  cancel_attempts job_id = ground arith

  pub replay_attempts :
      (job_id : ℕ) (name : String)
      → (published (replay_step job_id name (at d ms))).attempts ≡ d.attempts
  unfolding replay_step replay_write
  replay_attempts job_id name = ground arith

  module _ (c : ClaimedStep) where
    pub failure_attempts :
        (f : Failure)
        → Closes c.step_id c.fencing_token d (published (complete_failure c f (at d ms)))
    unfolding complete_failure failure_write fail_retry fail_dead_letter finish_attempt
        cancel_owned_step record_fence_reject
    failure_attempts f = elim (Option-cases (find (owned c.step_id c.fencing_token) d.steps)) [
      | inl e ↦ elim (Bool-cases (has_cancelled (job_with c.job_id d))) [
        | inl h ↦ record {
          outcome = Outcome.cancelled;
          error = stored_error (some f.error);
          attempts = ground arith;
        }
        | inr h ↦ record {
          outcome = Outcome.rejected_fence;
          error = some (slice_to 2000 (stale_error f.outcome));
          attempts = ground arith;
        }
      ]
      | inr (p, e) ↦ elim (Bool-cases (has_cancelled (job_with c.job_id d))) [
        | inl h ↦ record {
          outcome = Outcome.cancelled;
          error = stored_error (some f.error);
          attempts = ground arith;
        }
        | inr h ↦ record {
          outcome = f.outcome;
          error = stored_error (some f.error);
          attempts = ground arith;
        }
      ]
    ]

    pub success_attempts :
        (output : Value)
        → Closes c.step_id c.fencing_token d (published (complete_success c output (at d ms)))
    unfolding complete_success complete_success_sql complete_advance complete_refused finish_attempt
        finish_job_sql cancel_owned_step record_fence_reject job_with
    success_attempts output =
        elim (Option-cases (find (completable c.step_id c.fencing_token d) d.steps)) [
          | inl e ↦ elim (Bool-cases (has_cancelled (job_with c.job_id d))) [
            | inl h ↦ record {
              outcome = Outcome.cancelled;
              error = stored_error (some "job cancelled before complete");
              attempts = ground arith;
            }
            | inr h ↦ record {
              outcome = Outcome.rejected_fence;
              error = some (slice_to 2000 "stale complete_success");
              attempts = ground arith;
            }
          ]
          | inr (p, e) ↦ record {
            outcome = Outcome.succeeded;
            error = stored_error none;
            attempts = ground arith;
          }
        ]
