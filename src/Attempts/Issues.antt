-- ===== src/Attempts/Issues.antt =====
-- What a claim and a submit write to the table `attempts`.
use platform_forge.Effects.SubmitLaws.{with_job}
use platform_forge.Effects.{at, published}
use platform_forge.Metrics.{Metric}
use platform_forge.Effects.Submit.{with_row}
use platform_forge.Claims.Claim.{
  job_with, insert_attempt, claim_granted, claim_row, lease_row, claim_step, picked, start_queued,
}
use platform_forge.Store.{Session, update_steps}
use platform_forge.Invariant.{Inv}
use platform_forge.Claims.Submit.{
  new_step, submit_job, new_job, insert_step, submit_new, insert_steps, insert_job, submit_existing,
}
use platform_forge.Effects.Claim.{picked-claimable, ready_active, claim_some}
use platform_forge.Registry.{Step, get, Workflow}
use platform_forge.Models.{Db, AttemptRow, Value, JobRow, is_running, is_active, StepRow, Outcome}
use platform_forge.Prelude.{
  ℕ, ◌≡◌, arith, refl, ok, Bool, any, String, [], true, ◌==◌, false, List, none, insert, suc, some,
  ◌&&◌, ◌∷◌, ◌+◌,
}

module _ {ℓ} {H : Type ℓ} (uuid4 : ℕ → ℕ) (id : ℕ) where
  insert_steps_attempts :
      (n : ℕ) (steps : List (Step H)) (s : Session)
      → (insert_steps uuid4 id n steps s).1.work.attempts ≡ s.work.attempts
  unfolding insert_steps insert_step
  insert_steps_attempts n [] s = refl
  insert_steps_attempts n (step ∷ steps) s = ground (
    arith,
    insert_steps_attempts (suc n) steps (with_row (new_step s.work.now (uuid4 n) id n step) s),
  )

module _ {ℓ} {H : Type ℓ} (uuid4 : ℕ → ℕ) (registry : List (Workflow H)) (name key : String)
    (input : Value) (d : Db) (ms : List Metric) where
  pub submit_attempts :
      (wf : Workflow H) (id : ℕ)
      → get registry name ≡ some wf
      → (submit_job uuid4 registry name key input (at d ms)).0 ≡ ok (id, true)
      → (published (submit_job uuid4 registry name key input (at d ms))).attempts ≡ d.attempts
  unfolding submit_job insert_job submit_new submit_existing
  submit_attempts wf id w e = ground (
    arith,
    insert_steps_attempts uuid4 (uuid4 0) 1 wf.steps
        (with_job d ms (new_job d.now (uuid4 0) name key input)),
  )

-- The attempt that a claim of a step inserts.
abbrev pub first_attempt : Db → ℕ → ℕ → String → AttemptRow
first_attempt d step_id token worker = record {
  id = d.next_attempt;
  step_id = step_id;
  fencing_token = token;
  worker_id = worker;
  started_at = d.now;
  finished_at = none;
  outcome = Outcome.started;
  error = none;
}

module _ (worker : String) (row : StepRow) (steal : Bool) (s : Session) (j : JobRow) where
  claim_row_attempts :
      job_with row.job_id s.work ≡ some j
      → is_active j.status ≡ true
      → (published (claim_row worker row steal s)).attempts
        ≡ (insert_attempt row.id row.fencing_token worker s.work).attempts
  unfolding claim_row insert_attempt job_with start_queued claim_granted
  claim_row_attempts e active = ground arith

module _ (locked : ℕ → Bool) (d : Db) (worker : String) (ttl : ℕ) (ms : List Metric)
    (v : Inv d) where
  pub claim_attempts :
      (p : StepRow) (j : JobRow)
      → picked locked d ≡ some p
      → job_with p.job_id d ≡ some j
      → any (λ a. a.step_id == p.id && a.fencing_token == p.fencing_token + 1) d.attempts ≡ false
      → (published (claim_step locked worker ttl (at d ms))).attempts
        ≡ insert (first_attempt d p.id (p.fencing_token + 1) worker) d.attempts
  unfolding insert_attempt job_with
  claim_attempts p j e ej fresh =
      let (m, ready, _) = picked-claimable locked d p e in
      let after : Session = record {
        committed = d;
        work = update_steps (λ s. s.id == p.id) (lease_row d.now worker ttl) d;
        metrics = ms;
      } in
      let written =
        claim_row_attempts worker (lease_row d.now worker ttl p) (is_running p.status) after j ej
          (ready_active locked d worker ttl ms v p j ready ej) in
      rw (claim_some locked d worker ttl ms p e) (ground (arith, written, fresh))
