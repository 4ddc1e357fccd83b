-- ===== src/Examples/Witnesses.antt =====
-- The theorems on fencing, claims, submits and the registry, at a point where their conditions hold.
use platform_forge.Examples.Held.{stale_claim, expired-IsSound, greatest-IsUniform}
use platform_forge.History.{IsSound, empty-IsSound, Reach-IsSound}
use platform_forge.Claims.Submit.{char_length, submit_job}
use platform_forge.Claims.Claim.{before, claim_step}
use platform_forge.Models.{StepRow, JobStatus}
use platform_forge.Registry.Jitter.{jitter_cap, full_jitter, full_jitter_bounds}
use platform_forge.Lease.{
  is_free, claim_fences_holder, claim_oldest, claim_none_iff, live_lease_excludes,
}
use platform_forge.Claims.Claimed.{Verdict}
use platform_forge.Durable.{Keeps}
use platform_forge.Examples.Runs.{
  claimed-IsSound, steal_history, stolen-IsSound, busy-IsSound, refilled_history, steal_run,
  refilled_run, submitted-IsSound, other_run, success_run, later_history, cancel_history,
  demo_known,
}
use platform_forge.Effects.{at, published}
use platform_forge.Claims.Complete.{complete_success, complete_failure}
use platform_forge.Fencing.{
  stale_heartbeat_lost, stale_failure_rejected, stale_success_rejected, refusal,
}
use platform_forge.History.{claims, start}
use platform_forge.History.Once.{succeeds_once, after_success}
use platform_forge.History.Durable.{Reach-Keeps, resubmit_same_job, cancelled_never_claimed}
use platform_forge.Examples.Data.{
  failure, claim_of, payload, stolen_db, leased, claimed_db, empty_db, other_claim, busy_db,
  expired_db, no_locks, demo, uuids, the_job,
}
use platform_forge.Claims.Heartbeat.{heartbeat}
use platform_forge.Prelude.{
  ◌≡◌, false, refl, true, here, arith, [], ◌∷◌, ok, none, ◌↔◌, In, ◌≢◌, ◌≤◌, ◌<◌, ℕ,
}

Reach-IsSound_example : IsSound stolen_db (claim_of 2 true ∷ claim_of 1 false ∷ [])
Reach-IsSound_example = Reach-IsSound (empty-IsSound 1000) steal_history

Reach-Keeps_example : Keeps empty_db stolen_db
Reach-Keeps_example = Reach-Keeps (empty-IsSound 1000) steal_history

stale_success_rejected_example :
    let r = complete_success (claim_of 1 false) payload (at stolen_db []) in
    ((published r).steps ≡ stolen_db.steps)
    × ((published r).jobs ≡ stolen_db.jobs)
    × (r.0 ≡ refusal (claim_of 1 false) stolen_db)
stale_success_rejected_example =
    stale_success_rejected (claim_of 1 false) stolen_db stolen-IsSound.inv stale_claim (omega arith)
      payload []

stale_failure_rejected_example :
    let r = complete_failure (claim_of 1 false) failure (at stolen_db []) in
    ((published r).steps ≡ stolen_db.steps)
    × ((published r).jobs ≡ stolen_db.jobs)
    × (r.0 ≡ refusal (claim_of 1 false) stolen_db)
stale_failure_rejected_example =
    stale_failure_rejected (claim_of 1 false) stolen_db stolen-IsSound.inv stale_claim (omega arith)
      failure []

stale_heartbeat_lost_example :
    let r = heartbeat 11 "w1" 1 15 (at stolen_db []) in (published r ≡ stolen_db) × (r.0 ≡ ok none)
stale_heartbeat_lost_example =
    stale_heartbeat_lost (claim_of 1 false) stolen_db stolen-IsSound.inv stale_claim (omega arith)
      "w1" 15 []

succeeds_once_example :
    let next = published (
      claim_step no_locks "w2" 15
        (at (after_success (claim_of 1 false) payload claimed_db []) [])) in
    let again = complete_success (claim_of 1 false) payload (at next []) in
    let late = complete_failure (claim_of 1 false) failure (at next []) in
    (again.0 ≢ ok Verdict.succeeded)
    × ((published again).steps ≡ next.steps)
    × ((published again).jobs ≡ next.jobs)
    × ((published late).steps ≡ next.steps)
    × ((published late).jobs ≡ next.jobs)
succeeds_once_example =
    succeeds_once {H = ℕ} claimed-IsSound (claim_of 1 false) here payload [] success_run
      (claims no_locks "w2" 15 [] start) payload failure []

resubmit_same_job_example :
    let t = submit_job uuids (demo ∷ []) "linear_naive" "k1" payload (at stolen_db []) in
    (t.0 ≡ ok (10, false)) × (published t ≡ stolen_db)
unfolding char_length
resubmit_same_job_example =
    resubmit_same_job submitted-IsSound later_history (the_job JobStatus.queued) here uuids
      (demo ∷ []) payload [] demo_known (omega arith) (omega arith)

cancelled_never_claimed_example : other_claim.job_id ≢ 10
cancelled_never_claimed_example =
    cancelled_never_claimed (Reach-IsSound (empty-IsSound 1000) cancel_history) refilled_history
      (the_job JobStatus.cancelled) here refl no_locks "w2" 15 [] other_claim refilled_run

claim_none_iff_example :
    ((claim_step no_locks "w2" 15 (at claimed_db [])).0 ≡ ok none)
    ↔ ((s : StepRow) → In s claimed_db.steps → is_free no_locks claimed_db s ≡ false)
claim_none_iff_example = claim_none_iff no_locks claimed_db claimed-IsSound.inv "w2" 15 []

claim_oldest_example :
    (p : StepRow) × In p busy_db.steps
    × (p.id ≡ 21)
    × (is_free no_locks busy_db p ≡ true)
    × ((s : StepRow) → In s busy_db.steps → is_free no_locks busy_db s ≡ true → before s p ≡ false)
claim_oldest_example =
    claim_oldest no_locks busy_db busy-IsSound.inv "w2" 15 [] other_claim other_run

live_lease_excludes_example : other_claim.step_id ≢ 11
live_lease_excludes_example =
    live_lease_excludes no_locks busy_db busy-IsSound.inv "w2" 15 [] other_claim
      (leased 1000 "w1" 1) 1015 other_run here refl refl (omega arith)

claim_fences_holder_example : 1 < 2
claim_fences_holder_example =
    claim_fences_holder no_locks expired_db expired-IsSound.inv "w2" 15 [] (claim_of 2 true)
      (claim_of 1 false) steal_run (expired-IsSound.issued (claim_of 1 false) here) refl

full_jitter_bounds_example :
    (full_jitter 3 2 30 (λ lo hi. hi) ≤ jitter_cap 3 2 30)
    × (full_jitter 3 2 30 (λ lo hi. hi) ≤ 30)
    × (3 ≤ 1 → full_jitter 3 2 30 (λ lo hi. hi) ≤ 2)
full_jitter_bounds_example = full_jitter_bounds 3 2 30 (λ lo hi. hi) greatest-IsUniform
