-- ===== src/Effects/Cancel.antt =====
-- `cancel_job` and `replay_step`: the tables that they leave, their errors, and the invariant.
use platform_forge.Metrics.{Metric}
use platform_forge.Claims.Claim.{job_with}
use platform_forge.Invariant.{Inv}
use platform_forge.Effects.{published, at}
use platform_forge.Models.{job_is_dead_lettered, Db, is_active, StepRow, is_dead_lettered, JobRow}
use platform_forge.Store.{
  Session, Error, missing_job, conflict_terminal, missing_step, not_dead_lettered,
}
use platform_forge.Claims.Claimed.{cancel_row}
use platform_forge.Invariant.Cancel.{cancel-Inv, replay-Inv}
use platform_forge.Claims.Cancel.{
  resume_job, active_job, live_step, cancel_job, replay_row, replay_write, cancel_job_row,
  replay_step,
}
use platform_forge.Claims.Complete.{is_found}
use platform_forge.Prelude.{
  ℕ, inl, str_eq, err, String, inr, arith, find-In, Result, Bool-cases, ◌&&◌, if◌then◌else◌,
  Option-cases, update-none, find-some, ◌==◌, Bool, none, false, some, find, List, ◌≡◌, update, ok,
  true,
}

module _ (job_id : ℕ) (d : Db) (ms : List Metric) where
  abbrev cancelled : Result Error (Unit {0}) × Session
  cancelled = cancel_job job_id (at d ms)

  -- A job that is over, or not there, is refused and nothing changes.
  pub cancel_refused :
      find (active_job job_id) d.jobs ≡ none
      → (published cancelled ≡ d)
        × (cancelled.0
            ≡ err (if is_found (job_with job_id d) then conflict_terminal else missing_job job_id))
  unfolding cancel_job job_with
  cancel_refused e = ground (arith, update-none (active_job job_id) (cancel_job_row d.now) d.jobs e)

  pub cancel_tables :
      (k : JobRow)
      → find (active_job job_id) d.jobs ≡ some k
      → ((published cancelled).steps ≡ update (live_step job_id) (cancel_row d.now) d.steps)
        × ((published cancelled).jobs ≡ update (active_job job_id) (cancel_job_row d.now) d.jobs)
        × (cancelled.0 ≡ ok tt)
  unfolding cancel_job
  cancel_tables k e = ground arith

  module _ (v : Inv d) where
    -- The active row is the job's only one.
    pub active_found :
        (k : JobRow)
        → find (active_job job_id) d.jobs ≡ some k
        → (j : JobRow) × (job_with job_id d ≡ some j) × (is_active j.status ≡ true)
    unfolding job_with
    active_found k e =
        let (m, h) = find-some (active_job job_id) k d.jobs e in
        elim (Option-cases (find (λ j. j.id == job_id) d.jobs)) [
          | inl n ↦ absurd (find-In (λ j. j.id == job_id) m (ground arith) n)
          | inr (j, ej) ↦
              let (mj, hj) = find-some (λ j. j.id == job_id) j d.jobs ej in
              let same : j ≡ k = v.keyed.job_id j k mj m (ground arith) in (j, ej, ground arith)
        ]

    -- A cancellation keeps the invariant of the tables.
    pub cancel_job-Inv : Inv (published cancelled)
    cancel_job-Inv = elim (Option-cases (find (active_job job_id) d.jobs)) [
      | inl e ↦ rw (cancel_refused e).0 v
      | inr (k, e) ↦
          let (steps, jobs, _) = cancel_tables k e in
          let (j, ej, active) = active_found k e in
          cancel-Inv d _ job_id d.now v steps jobs j ej active
    ]

-- WHERE job_id = %s AND name = %s
abbrev pub named : ℕ → String → StepRow → Bool
named job_id step_name s = s.job_id == job_id && str_eq s.name step_name

module _ (job_id : ℕ) (step_name : String) (d : Db) (ms : List Metric) where
  abbrev replayed : Result Error (Unit {0}) × Session
  replayed = replay_step job_id step_name (at d ms)

  pub replay_tables :
      (j : JobRow) (p : StepRow)
      → job_with job_id d ≡ some j
      → find (named job_id step_name) d.steps ≡ some p
      → is_dead_lettered p.status ≡ true
      → ((published replayed).steps
          ≡ update (λ s. s.id == p.id && is_dead_lettered s.status) (replay_row d.now) d.steps)
        × ((published replayed).jobs
            ≡ update
                (λ k. k.id == job_id && job_is_dead_lettered k.status)
                (resume_job d.now)
                d.jobs)
        × (replayed.0 ≡ ok tt)
  unfolding replay_step replay_write
  replay_tables j p e ep dead = ground arith

  pub replay_missing_job :
      job_with job_id d ≡ none → (published replayed ≡ d) × (replayed.0 ≡ err (missing_job job_id))
  unfolding replay_step
  replay_missing_job e = ground arith

  pub replay_missing_step :
      (j : JobRow)
      → job_with job_id d ≡ some j
      → find (named job_id step_name) d.steps ≡ none
      → (published replayed ≡ d) × (replayed.0 ≡ err (missing_step step_name))
  unfolding replay_step
  replay_missing_step j e n = ground arith

  pub replay_refused :
      (j : JobRow) (p : StepRow)
      → job_with job_id d ≡ some j
      → find (named job_id step_name) d.steps ≡ some p
      → is_dead_lettered p.status ≡ false
      → (published replayed ≡ d) × (replayed.0 ≡ err not_dead_lettered)
  unfolding replay_step
  replay_refused j p e ep alive = ground arith

  -- A replay keeps the invariant of the tables.
  pub replay_step-Inv : Inv d → Inv (published replayed)
  replay_step-Inv v = elim (Option-cases (job_with job_id d)) [
    | inl e ↦ rw (replay_missing_job e).0 v
    | inr (j, e) ↦ elim (Option-cases (find (named job_id step_name) d.steps)) [
      | inl n ↦ rw (replay_missing_step j e n).0 v
      | inr (p, ep) ↦ elim (Bool-cases (is_dead_lettered p.status)) [
        | inl dead ↦
            let (steps, jobs, _) = replay_tables j p e ep dead in
            let (m, h) = find-some (named job_id step_name) p d.steps ep in
            replay-Inv d _ job_id d.now v p m (ground arith) dead steps jobs
        | inr alive ↦ rw (replay_refused j p e ep alive).0 v
      ]
    ]
  ]
