-- ===== src/Worker/Drain.antt =====
-- A worker whose handlers succeed runs out of work.
use platform_forge.Invariant.{Inv}
use platform_forge.Metrics.{Metric}
use platform_forge.Effects.Success.{success_done}
use platform_forge.Effects.{at, published}
use platform_forge.Worker.Slot.{Turn}
use platform_forge.Claims.Claimed.{ClaimedStep}
use platform_forge.Effects.Claim.{claim_answer, claim_tables, picked-claimable, claim_none}
use platform_forge.Store.{Error, Session}
use platform_forge.Models.{job_is_queued, StepRow, is_succeeded, Db, Value}
use platform_forge.Claims.Claim.{lease_row, claim_step, claimable, picked, job_with, start_job}
use platform_forge.Claims.Complete.{
  complete_success, unblock_row, next_blocked, succeed_row, completable,
}
use platform_forge.Prelude.{
  ℕ, count-update, arith, count, find-some, ap, Option, none, ◌≡◌, ◌∙◌, List, some, find-In, ◌+◌,
  find-update, update, In, changed, count-update-lt, In-update, ◌==◌, String, refl, inl, Result, ok,
  Bool, find, ◌&&◌, Option-cases, ◌<◌, false, ◌≢◌, not, inr,
}

-- The steps that have not succeeded.
abbrev pub unsucceeded : StepRow → Bool
unsucceeded s = not (is_succeeded s.status)

-- A turn in which nothing fails, no row is locked and the handler returns an output.
pub record GoesWell (t : Turn) : Type 0 where
  pub claims : t.claim_fails ≡ false
  pub unlocked : (id : ℕ) → t.locked id ≡ false
  pub executes : t.execute_fails ≡ false
  pub returns : (c : ClaimedStep) → (v : Value) × (t.ran c ≡ (some v, none))
  pub uncancelled : t.flags.cancelled ≡ false

pub clean_at : (s : Session) → s.work ≡ s.committed → s ≡ at s.committed s.metrics
clean_at s e = ground arith

module _ (d : Db) (ms : List Metric) (v : Inv d) (locked : ℕ → Bool) (worker : String)
    (ttl : ℕ) where
  abbrev claim : Result Error (Option ClaimedStep) × Session
  claim = claim_step locked worker ttl (at d ms)

  -- A claim leaves as many steps to do.
  pub claim_keeps_work : count unsucceeded (published claim).steps ≡ count unsucceeded d.steps
  unfolding claimable
  claim_keeps_work = elim (Option-cases (picked locked d)) [
    | inl n ↦ ap (λ (x : Db). count unsucceeded x.steps) (claim_none locked d worker ttl ms n).1
    | inr (p, h) ↦
        let (m, ready, _) = picked-claimable locked d p h in
        let (j, ej) = v.keyed.has_job p m in
        let (steps, _) = claim_tables locked d worker ttl ms v p j h ej in
        ap (count unsucceeded) steps
        ∙ count-update unsucceeded (λ s. s.id == p.id) (lease_row d.now worker ttl) d.steps
            (λ s n e. ground (arith, v.keyed.step_id s p n m))
  ]

  -- The step of a granted claim can be completed.
  pub granted_completable :
      (c : ClaimedStep)
      → claim.0 ≡ ok (some c)
      → find (completable c.step_id c.fencing_token (published claim)) (published claim).steps
        ≢ none
  unfolding completable claimable job_with
  granted_completable c e = elim (Option-cases (picked locked d)) [
    | inl n ↦ absurd (ground (arith, (claim_none locked d worker ttl ms n).0))
    | inr (p, h) ↦
        let (m, ready, _) = picked-claimable locked d p h in
        let (j, ej) = v.keyed.has_job p m in
        let (steps, jobs) = claim_tables locked d worker ttl ms v p j h ej in
        let answer = claim_answer locked d worker ttl ms v p j h ej in
        let moved = In-update (λ s. s.id == p.id) (lease_row d.now worker ttl) m in
        let hit : changed (λ s. s.id == p.id) (lease_row d.now worker ttl) p
            ≡ lease_row d.now worker ttl p =
          ground arith in
        let row : In (lease_row d.now worker ttl p) (published claim).steps =
          rw steps (rw hit at moved) in
        find-In _ row (
          ground (
            arith,
            answer,
            e,
            jobs,
            find-update (λ k. k.id == p.job_id) (λ k. k.id == p.job_id && job_is_queued k.status)
                (start_job d.now) d.jobs (λ k. refl),
          ))
  ]

module _ (c : ClaimedStep) (output : Value) (d : Db) (ms : List Metric) where
  -- A completion leaves fewer steps to do.
  pub success_count :
      (p : StepRow)
      → find (completable c.step_id c.fencing_token d) d.steps ≡ some p
      → count unsucceeded (published (complete_success c output (at d ms))).steps
        < count unsucceeded d.steps
  unfolding completable
  success_count p e =
      let done = completable c.step_id c.fencing_token d in
      let (steps, _, _) = success_done c output d ms p e in
      let (m, h) = find-some done p d.steps e in
      let fewer =
        count-update-lt unsucceeded done (succeed_row d.now output) d.steps m h (ground arith)
          (λ s n k. refl) in
      let same =
        count-update unsucceeded (next_blocked c.job_id (c.seq + 1)) (unblock_row d.now)
          (update done (succeed_row d.now output) d.steps) (λ s n k. ground arith) in
      omega (arith, ap (count unsucceeded) steps, same, fewer)
