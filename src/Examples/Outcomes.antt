-- ===== src/Examples/Outcomes.antt =====
-- The theorems on recovery, cancellation, reports and effects, at a point where their conditions hold.
use platform_forge.History.{empty-IsSound}
use platform_forge.Attempts.{IsLogged, LogsAll}
use platform_forge.Attempts.Log.{empty-IsLogged, Reach-IsLogged}
use platform_forge.Examples.Held.{
  stale_claim, held_claim, expired-IsSound, greatest-IsUniform, halted-IsSound, halted_claim,
}
use platform_forge.Worker.Reports.{stale_report_rejected}
use platform_forge.Worker.Beats.{beat_loop-loses, loses}
use platform_forge.Handlers.{has_effect, new_effect}
use platform_forge.Handlers.Effect.{
  runs_of, idempotent_runs, writes_of, naive_runs, idempotent_runs_once, naive_runs_count,
}
use platform_forge.Worker.{failed, answered, report, new_flags, beat_loop}
use platform_forge.Race.{late_failure_dead_letters_job}
use platform_forge.Recovery.Advance.{succeeded_next_claimable}
use platform_forge.Recovery.Replay.{replayed_claimable}
use platform_forge.Stop.{cancelled_reports}
use platform_forge.Effects.Clean.{IsClean, calls-IsClean}
use platform_forge.Recovery.Retry.{retried_claimable}
use platform_forge.Recovery.{expired_lease_recovered, IsServed}
use platform_forge.Claims.Cancel.{replay_step, cancel_job}
use platform_forge.Claims.Claim.{claim_step, claimable}
use platform_forge.Models.{StepRow, JobStatus, JobRow, is_active, Value}
use platform_forge.Claims.Claimed.{Verdict, ClaimedStep}
use platform_forge.Examples.Runs.{
  claimed-IsSound, stolen-IsSound, success_run, retry_run, dead_db, halted_run, dead-Inv,
  expired_job_run, replay_run, lost_run, steal_history,
}
use platform_forge.Effects.{at, published}
use platform_forge.Claims.Complete.{
  complete_success, complete_failure, Failure, failure_write, dead_letter_job,
}
use platform_forge.Fencing.{refusal}
use platform_forge.Examples.Data.{
  failure, claim_of, payload, stolen_db, leased, claimed_db, expired_db, the_job, fatal, notify_row,
  halted_db, context, backoff, no_locks,
}
use platform_forge.Claims.Heartbeat.{heartbeat}
use platform_forge.Prelude.{
  ◌≡◌, false, refl, true, here, arith, [], ◌∷◌, ok, none, some, find, In, ◌<◌, String, ◌+◌, there,
  Bool, ℕ,
}

expired_lease_recovered_example :
    (c : ClaimedStep) × ((claim_step no_locks "w2" 15 (at expired_db [])).0 ≡ ok (some c))
    × IsServed expired_db expired-IsSound.inv (leased 1000 "w1" 1) here "w2" 15 [] no_locks c
expired_lease_recovered_example =
    expired_lease_recovered expired_db expired-IsSound.inv (leased 1000 "w1" 1) here "w2" 15 []
      no_locks 1015 (the_job JobStatus.running) refl refl refl (omega arith) expired_job_run refl

replayed_claimable_example :
    let after = published (replay_step 10 "charge" (at dead_db [])) in
    (s : StepRow) × In s after.steps
    × (s.job_id ≡ 10)
    × (s.name ≡ "charge")
    × (s.attempt_count ≡ 0)
    × (claimable after s ≡ true)
replayed_claimable_example = replayed_claimable 10 "charge" dead_db [] dead-Inv replay_run

succeeded_next_claimable_example :
    let after = published (complete_success (claim_of 1 false) payload (at claimed_db [])) in
    (t : StepRow) × In t after.steps × (t.id ≡ 12) × (claimable after t ≡ true)
succeeded_next_claimable_example =
    succeeded_next_claimable (claim_of 1 false) payload claimed_db [] claimed-IsSound.inv held_claim
      success_run notify_row (there here) refl refl

retried_claimable_example :
    let after = published (complete_failure (claim_of 1 false) failure (at claimed_db [])) in
    (1 < 5)
    × (t : StepRow) × In t after.steps
    × (t.id ≡ 11)
    × (t.fencing_token ≡ 1)
    × (claimable (record after { now = after.now + 30 }) t ≡ true)
retried_claimable_example =
    retried_claimable (claim_of 1 false) failure claimed_db [] claimed-IsSound.inv
      greatest-IsUniform retry_run

cancelled_reports_example :
    let r = complete_success (claim_of 1 false) payload (at halted_db []) in
    let q = complete_failure (claim_of 1 false) failure (at halted_db []) in
    ((published r).steps ≡ halted_db.steps)
    × ((published r).jobs ≡ halted_db.jobs)
    × (r.0 ≡ ok Verdict.cancelled)
    × ((published q).steps ≡ halted_db.steps)
    × ((published q).jobs ≡ halted_db.jobs)
    × (q.0 ≡ ok Verdict.cancelled)
cancelled_reports_example =
    cancelled_reports (claim_of 1 false) halted_db [] halted-IsSound.inv halted_claim halted_run
      payload failure

late_failure_dead_letters_job_example :
    let r = failure_write (claim_of 1 false) fatal false true (at stolen_db []) in
    (r.0 ≡ ok Verdict.dead_lettered)
    × ((published r).steps ≡ stolen_db.steps)
    × ((j : JobRow)
        → In j stolen_db.jobs
        → j.id ≡ 10
        → is_active j.status ≡ true
        → In (dead_letter_job 1020 j) (published r).jobs)
late_failure_dead_letters_job_example =
    late_failure_dead_letters_job (claim_of 1 false) fatal stolen_db [] lost_run refl

calls-IsClean_example :
    ((locked : ℕ → Bool) (worker : String) (ttl : ℕ)
      → IsClean (claim_step locked worker ttl (at claimed_db [])))
    × ((step_id : ℕ) (worker : String) (token ttl : ℕ)
        → IsClean (heartbeat step_id worker token ttl (at claimed_db [])))
    × ((c : ClaimedStep) (output : Value) → IsClean (complete_success c output (at claimed_db [])))
    × ((c : ClaimedStep) (f : Failure) → IsClean (complete_failure c f (at claimed_db [])))
    × ((job_id : ℕ) → IsClean (cancel_job job_id (at claimed_db [])))
    × ((job_id : ℕ) (name : String) → IsClean (replay_step job_id name (at claimed_db [])))
calls-IsClean_example = calls-IsClean claimed_db []

stale_report_rejected_example :
    let r = report (claim_of 1 false) backoff (some payload) none new_flags (at stolen_db []) in
    ((published r).steps ≡ stolen_db.steps)
    × ((published r).jobs ≡ stolen_db.jobs)
    × (r.0 ≡ refusal (claim_of 1 false) stolen_db)
stale_report_rejected_example =
    stale_report_rejected (claim_of 1 false) backoff (some payload) none new_flags stolen_db []
      stolen-IsSound.inv stale_claim (omega arith)

beat_loop-loses_example :
    (beat_loop (failed ∷ failed ∷ answered (some JobStatus.running) ∷ failed ∷ []) new_flags).lost
    ≡ loses (failed ∷ failed ∷ answered (some JobStatus.running) ∷ failed ∷ [])
beat_loop-loses_example =
    beat_loop-loses (failed ∷ failed ∷ answered (some JobStatus.running) ∷ failed ∷ [])

naive_runs_count_example :
    writes_of "linear_naive:k1:charge"
      (naive_runs (context 1 ∷ context 2 ∷ []) (at claimed_db [])).committed.effects
    ≡ runs_of "linear_naive:k1:charge" (context 1 ∷ context 2 ∷ [])
      + writes_of "linear_naive:k1:charge" claimed_db.effects
naive_runs_count_example =
    naive_runs_count "linear_naive:k1:charge" (context 1 ∷ context 2 ∷ []) claimed_db []

idempotent_runs_once_example :
    find
      (has_effect "linear_naive:k1:charge")
      (idempotent_runs (context 1 ∷ context 2 ∷ []) (at claimed_db [])).committed.effects
    ≡ some (new_effect 1000 (context 1))
unfolding find
idempotent_runs_once_example = idempotent_runs_once (context 1) (context 2 ∷ []) claimed_db [] refl

Reach-IsLogged_example :
    IsLogged stolen_db × LogsAll stolen_db (claim_of 2 true ∷ claim_of 1 false ∷ [])
Reach-IsLogged_example =
    Reach-IsLogged (empty-IsSound 1000) (empty-IsLogged 1000) (λ c m. elim m [ ]) steal_history
