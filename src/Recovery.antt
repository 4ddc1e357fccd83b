-- ===== src/Recovery.antt =====
-- What becomes of a step that nobody holds: `claim_step` gives it out again after its worker's lease
-- ran out, after its retry is due, after the step before it succeeded, and after a replay.
pub mod Retry
pub mod Replay
pub mod Advance
use platform_forge.Api.{answer}
use platform_forge.Claims.Claimed.{ClaimedStep}
use platform_forge.Invariant.{Inv}
use platform_forge.Effects.{at}
use platform_forge.Metrics.{Metric}
use platform_forge.Lease.{is_free, first_by-least}
use platform_forge.Effects.Claim.{claim_answer, picked-claimable}
use platform_forge.Claims.Claim.{before, claim_step, picked, claimable, job_with}
use platform_forge.Models.{is_active, JobRow, StepRow, StepStatus, Db}
use platform_forge.Prelude.{
  ℕ, Bool, inl, ◌+◌, true, ok, some, first_by-none, ap, ◌==◌, ◌≡◌, List, String, arith, ◌<◌, not,
  In, inr, In-select, Option-cases, ◌⊎◌, false, refl, Bool-cases,
}

-- Every other row is locked by another transaction.
abbrev others : StepRow → ℕ → Bool
others s id = not (id == s.id)

-- The claim is of this step, under the next token, and counts as its next attempt.
abbrev pub IsClaimed : Db → StepRow → String → ℕ → List Metric → ClaimedStep → Type 0
IsClaimed d s worker ttl ms c =
    ((claim_step (others s) worker ttl (at d ms)).0 ≡ ok (some c))
    × (c.step_id ≡ s.id)
    × (c.fencing_token ≡ s.fencing_token + 1)
    × (c.attempt_count ≡ s.attempt_count + 1)

module _ (d : Db) (v : Inv d) (s : StepRow) (m : In s d.steps) (worker : String) (ttl : ℕ)
    (ms : List Metric) where
  pub claimable-IsClaimed : claimable d s ≡ true → (c : ClaimedStep) × IsClaimed d s worker ttl ms c
  unfolding picked
  claimable-IsClaimed ready = elim (Option-cases (picked (others s) d)) [
    | inl n ↦ absurd (first_by-none before _ n (In-select (is_free (others s) d) m (ground arith)))
    | inr (p, h) ↦
        let (mp, _, mine) = picked-claimable (others s) d p h in
        let same : p ≡ s = v.keyed.step_id p s mp m (ground arith) in
        let (j, ej) = v.keyed.has_job p mp in
        let answer = claim_answer (others s) d worker ttl ms v p j h ej in
        (
          _,
          (
            answer,
            ap (λ (t : StepRow). t.id) same,
            ap (λ (t : StepRow). t.fencing_token + 1) same,
            ap (λ (t : StepRow). t.attempt_count + 1) same,
          ),
        )
  ]

  -- The claim is of this step, or of one that it may hand out too and that stands before it.
  abbrev pub IsServed : (ℕ → Bool) → ClaimedStep → Type 0
  IsServed locked c =
      ((c.step_id ≡ s.id)
        × (c.fencing_token ≡ s.fencing_token + 1)
        × (c.attempt_count ≡ s.attempt_count + 1))
      ⊎ ((p : StepRow) × In p d.steps
          × (p.id ≡ c.step_id)
          × (is_free locked d p ≡ true)
          × (before p s ≡ true))

  claimable-IsServed :
      (locked : ℕ → Bool)
      → locked s.id ≡ false
      → claimable d s ≡ true
      → (c : ClaimedStep) × ((claim_step locked worker ttl (at d ms)).0 ≡ ok (some c))
        × IsServed locked c
  unfolding picked
  claimable-IsServed locked free_row ready = elim (Option-cases (picked locked d)) [
    | inl n ↦ absurd (first_by-none before _ n (In-select (is_free locked d) m (ground arith)))
    | inr (p, h) ↦
        let (mp, ready_p, free) = picked-claimable locked d p h in
        let (j, ej) = v.keyed.has_job p mp in
        let answer = claim_answer locked d worker ttl ms v p j h ej in
        let least = first_by-least p _ h s (In-select (is_free locked d) m (ground arith)) in
        (
          _,
          answer,
          elim (Bool-cases (before p s)) [
            | inl b ↦ inr (p, mp, refl, ground arith, b)
            | inr b ↦
                let same : p ≡ s = v.keyed.step_id p s mp m (ground arith) in
                inl (
                  ap (λ (t : StepRow). t.id) same,
                  ap (λ (t : StepRow). t.fencing_token + 1) same,
                  ap (λ (t : StepRow). t.attempt_count + 1) same,
                )
          ],
        )
  ]

  -- Where the invariant holds and no other transaction holds the row of a step whose lease ran out, of a
  -- job that is not over, the next claim hands out a step: this one, under the next token and counted as
  -- one more attempt, whatever `max_attempts` says, or a claimable and unlocked one that is due before it,
  -- by time and then by id.
  pub expired_lease_recovered :
      (locked : ℕ → Bool) (t : ℕ) (j : JobRow)
      → locked s.id ≡ false
      → s.status ≡ StepStatus.running
      → s.leased_until ≡ some t
      → t < d.now
      → job_with s.job_id d ≡ some j
      → is_active j.status ≡ true
      → (c : ClaimedStep) × ((claim_step locked worker ttl (at d ms)).0 ≡ ok (some c))
        × IsServed locked c
  unfolding claimable
  expired_lease_recovered locked t j free runs lease late ej active =
      claimable-IsServed locked free (ground arith)
