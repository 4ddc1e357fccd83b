-- ===== src/Api/Laws.antt =====
-- The status codes of the endpoints on jobs.
use platform_forge.Invariant.{Inv}
use platform_forge.Claims.Cancel.{cancel_job, active_job, resume_job, replay_step}
use platform_forge.Effects.Clean.{cancel-IsClean, replay-IsClean}
use platform_forge.Claims.Claim.{job_with}
use platform_forge.Views.Load.{job_view, load_job_view}
use platform_forge.Api.Jobs.{key_of, is_permission_error, cancel, replay, jobs}
use platform_forge.Effects.{at, published}
use platform_forge.Metrics.{Metric}
use platform_forge.Claims.Returned.{cancel_and_load, replay_and_load}
use platform_forge.Claims.Load.{JobView, load_job}
use platform_forge.Effects.Cancel.{
  cancel_refused, cancel_tables, active_found, replay_tables, replay_refused, replay_missing_job,
  named, replay_missing_step,
}
use platform_forge.Models.{is_active, Db, is_dead_lettered, JobRow, job_is_dead_lettered}
use platform_forge.Store.{
  Error, conflict_terminal, Session, missing_job, connection, missing_step, not_dead_lettered,
}
use platform_forge.Stop.{cancelled_settles}
use platform_forge.Api.{Response}
use platform_forge.Prelude.{
  ℕ, ◌==◌, err, Option-cases, some, find-none, ◌≡◌, find-some, Option, none, inl, find,
  if◌then◌else◌, List, String, Result, arith, ok, inr, ◌≢◌, update, Bool-cases, find-update, refl,
  ◌&&◌,
}

-- The status code of a response; `none` if an exception went through.
abbrev pub code_of : Result Error Response → Option ℕ
code_of (ok r) = some r.code
code_of (err e) = none

-- The status code, and the tables after the request.
abbrev pub outcome_of : Result Error Response × Session → Option ℕ × Db
outcome_of r = (code_of r.0, published r)

-- A `load_job` that finds its job.
pub loads :
    (job_id : ℕ) (s : Session)
    → job_with job_id s.work ≢ none
    → (w : JobView) × (load_job job_id s ≡ (ok w, s))
loads job_id s h = elim (Option-cases (job_with job_id s.work)) [
  | inl n ↦ absurd (h n)
  | inr (j, e) ↦ (job_view job_id s j, ground (arith, load_job_view job_id s))
]

module _ (str_uuid isoformat : ℕ → String) (repr : String → String) where
  module _ (job_id : ℕ) (d : Db) (ms : List Metric) where
    abbrev cancelled : Result Error Response × Session
    cancelled = cancel str_uuid isoformat repr job_id (at d ms)

    cancel_raises :
        (e : Error)
        → (cancel_job job_id (at d ms)).0 ≡ err e
        → (published cancelled ≡ published (cancel_job job_id (at d ms)))
          × (code_of cancelled.0 ≡ (
              if is_permission_error e
              then some 409
              else elim (key_of str_uuid isoformat repr e) [ none ↦ none | some _ ↦ some 404 ]))
    unfolding cancel connection cancel_and_load
    cancel_raises e h = ground arith

    cancel_returns :
        (w : JobView)
        → (cancel_job job_id (at d ms)).0 ≡ ok tt
        → load_job job_id (cancel_job job_id (at d ms)).1 ≡ (ok w, (cancel_job job_id (at d ms)).1)
        → (published cancelled ≡ (cancel_job job_id (at d ms)).1.work)
          × (code_of cancelled.0 ≡ some 200)
    unfolding cancel connection cancel_and_load
    cancel_returns w h k = ground arith

    -- Where the invariant holds, POST /jobs/{id}/cancel always answers: with 404 if there is no such job
    -- and with 409 if it is over, and then nothing changes; else with 200, and the tables are those
    -- that `cancel_job` leaves.
    pub cancel_answers :
        Inv d
        → outcome_of cancelled ≡ (elim (job_with job_id d) [
          | none ↦ (some 404, d)
          | some j ↦
              if is_active j.status
              then (some 200, published (cancel_job job_id (at d ms)))
              else (some 409, d)
        ])
    unfolding job_with
    cancel_answers v = elim (Option-cases (find (active_job job_id) d.jobs)) [
      | inl n ↦
          let (same, raised) = cancel_refused job_id d ms n in
          elim (Option-cases (find (λ j. j.id == job_id) d.jobs)) [
            | inl gone ↦
                let (kept, code) =
                  cancel_raises (missing_job job_id) (ground (arith, raised, gone)) in
                ground (arith, code, gone, kept, same)
            | inr (j, e) ↦
                let (m, h) = find-some (λ j. j.id == job_id) j d.jobs e in
                let over = find-none (active_job job_id) m n in
                let (kept, code) = cancel_raises conflict_terminal (ground (arith, raised, e)) in
                ground (arith, code, e, over, h, kept, same)
          ]
      | inr (k, found) ↦
          let (j, e, active) = active_found job_id d ms v k found in
          let (_, _, done) = cancel_tables job_id d ms k found in
          let settled = (cancelled_settles job_id d ms v done).0 in
          let clean = cancel-IsClean d ms job_id in
          let (w, view) =
            loads job_id (cancel_job job_id (at d ms)).1 (λ n. ground (arith, clean, settled, n)) in
          let (kept, code) = cancel_returns w done view in
          ground (arith, code, e, active, kept, clean)
    ]

  module _ (job_id : ℕ) (step : String) (d : Db) (ms : List Metric) where
    abbrev replayed : Result Error Response × Session
    replayed = replay str_uuid isoformat repr job_id step (at d ms)

    replay_raises :
        (e : Error)
        → (replay_step job_id step (at d ms)).0 ≡ err e
        → (published replayed ≡ published (replay_step job_id step (at d ms)))
          × (code_of replayed.0 ≡ (
              if is_permission_error e
              then some 409
              else elim (key_of str_uuid isoformat repr e) [ none ↦ none | some _ ↦ some 404 ]))
    unfolding replay connection replay_and_load
    replay_raises e h = ground arith

    replay_returns :
        (w : JobView)
        → (replay_step job_id step (at d ms)).0 ≡ ok tt
        → load_job job_id (replay_step job_id step (at d ms)).1
          ≡ (ok w, (replay_step job_id step (at d ms)).1)
        → (published replayed ≡ (replay_step job_id step (at d ms)).1.work)
          × (code_of replayed.0 ≡ some 200)
    unfolding replay connection replay_and_load
    replay_returns w h k = ground arith

    -- A replay keeps the ids of the jobs.
    still_there :
        (j : JobRow)
        → job_with job_id d ≡ some j
        → (published (replay_step job_id step (at d ms))).jobs
          ≡ update (λ k. k.id == job_id && job_is_dead_lettered k.status) (resume_job d.now) d.jobs
        → job_with job_id (published (replay_step job_id step (at d ms))) ≢ none
    unfolding job_with
    still_there j e jobs n = ground (
      arith,
      jobs,
      find-update (λ k. k.id == job_id) (λ k. k.id == job_id && job_is_dead_lettered k.status)
          (resume_job d.now) d.jobs (λ k. refl),
    )

    -- POST /jobs/{id}/steps/{step}/replay always answers: with 404 if the job or the step is not there
    -- and with 409 if the step is not dead-lettered, and then nothing changes; else with 200, and the
    -- tables are those that `replay_step` leaves.
    pub replay_answers : outcome_of replayed ≡ (elim (job_with job_id d) [
      | none ↦ (some 404, d)
      | some j ↦ elim (find (named job_id step) d.steps) [
        | none ↦ (some 404, d)
        | some s ↦
            if is_dead_lettered s.status
            then (some 200, published (replay_step job_id step (at d ms)))
            else (some 409, d)
      ]
    ])
    replay_answers = elim (Option-cases (job_with job_id d)) [
      | inl n ↦
          let (same, raised) = replay_missing_job job_id step d ms n in
          let (kept, code) = replay_raises (missing_job job_id) raised in
          ground (arith, code, kept, same)
      | inr (j, e) ↦ elim (Option-cases (find (named job_id step) d.steps)) [
        | inl n ↦
            let (same, raised) = replay_missing_step job_id step d ms j e n in
            let (kept, code) = replay_raises (missing_step step) raised in
            ground (arith, code, kept, same)
        | inr (p, ep) ↦ elim (Bool-cases (is_dead_lettered p.status)) [
          | inr alive ↦
              let (same, raised) = replay_refused job_id step d ms j p e ep alive in
              let (kept, code) = replay_raises not_dead_lettered raised in
              ground (arith, code, kept, same)
          | inl dead ↦
              let (_, jobs, done) = replay_tables job_id step d ms j p e ep dead in
              let clean = replay-IsClean d ms job_id step in
              let (w, view) =
                loads job_id (replay_step job_id step (at d ms)).1
                  (λ n. still_there j e jobs (ground (arith, clean, n))) in
              let (kept, code) = replay_returns w done view in ground (arith, code, kept, clean)
        ]
      ]
    ]
