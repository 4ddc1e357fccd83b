-- ===== src/Effects/Claim.antt =====
-- `claim_step`: the row it picks, and the tables that it leaves.
use platform_forge.Claims.Claimed.{ClaimedStep}
use platform_forge.Store.{Error, Session, update_steps}
use platform_forge.Prelude.{
  ℕ, ◌≡◌, Option-cases, Bool, String, some, List, In, true, Result, false, none, ok,
  In-select-cases, Option, ◌&&◌, if◌then◌else◌, first_by-In, not, ◌==◌, update, arith, update-miss,
  find-some, inl, inr, ltb, order_by, select, refl, find-update, find,
}
use platform_forge.Models.{Db, StepRow, JobRow, is_active, job_is_queued, is_running, is_succeeded}
use platform_forge.Metrics.{Metric}
use platform_forge.Claims.Claim.{
  claim_step, picked, claimable, job_with, lease_row, start_job, claim_sql, claim_row,
  insert_attempt, claim_granted, before, start_queued, claimed_step, upstream,
}
use platform_forge.Invariant.{Inv}
use platform_forge.Invariant.Claim.{claim-Inv}
use platform_forge.Effects.{at, published}

module _ (locked : ℕ → Bool) (d : Db) where
  -- The picked row is a claimable step that nobody has locked.
  pub picked-claimable :
      (p : StepRow)
      → picked locked d ≡ some p
      → In p d.steps × (claimable d p ≡ true) × (locked p.id ≡ false)
  unfolding picked
  picked-claimable p e =
      let (m, h) =
        In-select-cases (λ s. claimable d s && not (locked s.id)) p d.steps
          (first_by-In before p _ e) in
      (m, ground arith, ground arith)

  module _ (worker : String) (ttl : ℕ) (ms : List Metric) where
    abbrev result : Result Error (Option ClaimedStep) × Session
    result = claim_step locked worker ttl (at d ms)

    pub claim_none : picked locked d ≡ none → (result.0 ≡ ok none) × (published result ≡ d)
    unfolding claim_step claim_sql
    claim_none e = ground arith

    pub claim_some :
        (p : StepRow)
        → picked locked d ≡ some p
        → claim_step locked worker ttl (at d ms)
          ≡ claim_row worker (lease_row d.now worker ttl p) (is_running p.status) (record {
            committed = d;
            work = update_steps (λ s. s.id == p.id) (lease_row d.now worker ttl) d;
            metrics = ms;
          })
    unfolding claim_step claim_sql
    claim_some p e = ground arith

-- The statements after CLAIM_SQL, when the job of the row is active.
module _ (worker : String) (row : StepRow) (steal : Bool) (s : Session) (j : JobRow) where
  abbrev rest : Result Error (Option ClaimedStep) × Session
  rest = claim_row worker row steal s

  claim_row_tables :
      job_with row.job_id s.work ≡ some j
      → is_active j.status ≡ true
      → ((published rest).steps ≡ s.work.steps)
        × ((published rest).jobs ≡ (
            if job_is_queued j.status
            then update
                (λ k. k.id == row.job_id && job_is_queued k.status)
                (start_job s.work.now)
                s.work.jobs
            else s.work.jobs))
  unfolding claim_row insert_attempt job_with start_queued claim_granted
  claim_row_tables e active = ground arith

  started_found :
      job_with row.job_id s.work ≡ some j
      → find
          (λ k. k.id == row.job_id)
          (update
            (λ k. k.id == row.job_id && job_is_queued k.status)
            (start_job s.work.now)
            s.work.jobs)
        ≡ some (if job_is_queued j.status then start_job s.work.now j else j)
  unfolding job_with
  started_found e =
      let (m, h) = find-some (λ k. k.id == row.job_id) j s.work.jobs e in
      ground (
        arith,
        find-update (λ k. k.id == row.job_id) (λ k. k.id == row.job_id && job_is_queued k.status)
            (start_job s.work.now) s.work.jobs (λ k. refl),
      )

  claim_row_answer :
      job_with row.job_id s.work ≡ some j
      → is_active j.status ≡ true
      → rest.0
        ≡ ok (
            some (
              claimed_step row steal
                (if job_is_queued j.status then start_job s.work.now j else j)
                (order_by
                  (λ t. t.seq)
                  (select
                    (λ t. t.job_id == row.job_id && ltb t.seq row.seq && is_succeeded t.status)
                    s.work.steps))))
  unfolding claim_row insert_attempt job_with start_queued claim_granted upstream
  claim_row_answer e active = ground (arith, started_found e)

module _ (locked : ℕ → Bool) (d : Db) (worker : String) (ttl : ℕ) (ms : List Metric)
    (v : Inv d) where
  start_none :
      (p : StepRow) (j : JobRow)
      → job_with p.job_id d ≡ some j
      → job_is_queued j.status ≡ false
      → update (λ k. k.id == p.job_id && job_is_queued k.status) (start_job d.now) d.jobs ≡ d.jobs
  unfolding job_with
  start_none p j e started = update-miss _ _ d.jobs λ k m.
      let (mj, hj) = find-some (λ k. k.id == p.job_id) j d.jobs e in
      ground (arith, v.keyed.job_id k j m mj)

  pub ready_active :
      (p : StepRow) (j : JobRow)
      → claimable d p ≡ true
      → job_with p.job_id d ≡ some j
      → is_active j.status ≡ true
  unfolding claimable
  ready_active p j h e = ground arith

  -- The tables after a claim that picked `p`.
  pub claim_tables :
      (p : StepRow) (j : JobRow)
      → picked locked d ≡ some p
      → job_with p.job_id d ≡ some j
      → ((published (claim_step locked worker ttl (at d ms))).steps
          ≡ update (λ s. s.id == p.id) (lease_row d.now worker ttl) d.steps)
        × ((published (claim_step locked worker ttl (at d ms))).jobs
            ≡ update (λ k. k.id == p.job_id && job_is_queued k.status) (start_job d.now) d.jobs)
  unfolding job_with
  claim_tables p j e ej =
      let (m, ready, _) = picked-claimable locked d p e in
      let after : Session = record {
        committed = d;
        work = update_steps (λ s. s.id == p.id) (lease_row d.now worker ttl) d;
        metrics = ms;
      } in
      let (steps, jobs) =
        claim_row_tables worker (lease_row d.now worker ttl p) (is_running p.status) after j ej
          (ready_active p j ready ej) in
      rw (claim_some locked d worker ttl ms p e) (steps, ground (arith, jobs, start_none p j ej))

  -- A claim keeps the invariant of the tables.
  pub claim_step-Inv : Inv (published (claim_step locked worker ttl (at d ms)))
  claim_step-Inv = elim (Option-cases (picked locked d)) [
    | inl e ↦ rw (claim_none locked d worker ttl ms e).1 v
    | inr (p, e) ↦
        let (m, ready, _) = picked-claimable locked d p e in
        let (j, ej) = v.keyed.has_job p m in
        let (steps, jobs) = claim_tables p j e ej in claim-Inv d _ p worker ttl v m ready steps jobs
  ]

  -- What a claim answers, by the row that it picked: its token and its attempt are the next ones,
  -- its outputs are those of the succeeded steps before it, and it is a steal if the row was running.
  pub claim_answer :
      (p : StepRow) (j : JobRow)
      → picked locked d ≡ some p
      → job_with p.job_id d ≡ some j
      → (claim_step locked worker ttl (at d ms)).0
        ≡ ok (
            some (
              claimed_step
                (lease_row d.now worker ttl p)
                (is_running p.status)
                (if job_is_queued j.status then start_job d.now j else j)
                (order_by
                  (λ s. s.seq)
                  (select
                    (λ s. s.job_id == p.job_id && ltb s.seq p.seq && is_succeeded s.status)
                    (update (λ s. s.id == p.id) (lease_row d.now worker ttl) d.steps)))))
  unfolding job_with
  claim_answer p j e ej =
      let (m, ready, _) = picked-claimable locked d p e in
      rw (claim_some locked d worker ttl ms p e) (
        claim_row_answer worker (lease_row d.now worker ttl p) (is_running p.status) _ j ej
          (ready_active p j ready ej))
