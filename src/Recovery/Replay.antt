-- ===== src/Recovery/Replay.antt =====
-- `replay_step` puts a dead-lettered step back to work.
use platform_forge.Invariant.{Inv}
use platform_forge.Metrics.{Metric}
use platform_forge.Claims.Claim.{claimable, job_with}
use platform_forge.Claims.Cancel.{replay_write, replay_step, replay_row, resume_job}
use platform_forge.Models.{JobStatus, Db, job_is_dead_lettered, is_dead_lettered, JobRow, StepRow}
use platform_forge.Effects.{at, published}
use platform_forge.Effects.Cancel.{
  replay_missing_job, named, replay_refused, replay_tables, replay_missing_step,
}
use platform_forge.Prelude.{
  ℕ, find-update, str_eq_iff, refl, ◌≡◌, Bool-cases, changed, find, true, inr, In-update, some,
  Bool, update, ok, inl, String, ◌==◌, find-some, arith, ◌&&◌, Option-cases, List, In,
}

module _ (job_id : ℕ) (step_name : String) (d : Db) (ms : List Metric) (v : Inv d) where
  abbrev after : Db
  after = published (replay_step job_id step_name (at d ms))

  replay_now : after.now ≡ d.now
  unfolding replay_step replay_write
  replay_now = ground arith

  -- The job of the step runs again.
  resumed :
      (j : JobRow)
      → after.jobs
        ≡ update (λ k. k.id == job_id && job_is_dead_lettered k.status) (resume_job d.now) d.jobs
      → job_with job_id d ≡ some j
      → j.status ≡ JobStatus.dead_lettered
      → job_with job_id after ≡ some (resume_job d.now j)
  unfolding job_with
  resumed j jobs ej dead =
      let (m, h) = find-some (λ k. k.id == job_id) j d.jobs ej in
      ground (
        arith,
        jobs,
        find-update (λ k. k.id == job_id) (λ k. k.id == job_id && job_is_dead_lettered k.status)
            (resume_job d.now) d.jobs (λ k. refl),
      )

  -- Where the invariant holds, a replay that is accepted leaves a row of that job and name that can be claimed at once, with all
  -- its attempts left.
  pub replayed_claimable :
      (replay_step job_id step_name (at d ms)).0 ≡ ok tt
      → (s : StepRow) × In s after.steps
        × (s.job_id ≡ job_id)
        × (s.name ≡ step_name)
        × (s.attempt_count ≡ 0)
        × (claimable after s ≡ true)
  unfolding claimable
  replayed_claimable e = elim (Option-cases (job_with job_id d)) [
    | inl n ↦ absurd (ground (arith, (replay_missing_job job_id step_name d ms n).1))
    | inr (j, ej) ↦ elim (Option-cases (find (named job_id step_name) d.steps)) [
      | inl n ↦ absurd (ground (arith, (replay_missing_step job_id step_name d ms j ej n).1))
      | inr (p, ep) ↦ elim (Bool-cases (is_dead_lettered p.status)) [
        | inr alive ↦
            absurd (ground (arith, (replay_refused job_id step_name d ms j p ej ep alive).1))
        | inl dead ↦
            let (steps, jobs, _) = replay_tables job_id step_name d ms j p ej ep dead in
            let (m, h) = find-some (named job_id step_name) p d.steps ep in
            let q : StepRow → Bool = λ s. s.id == p.id && is_dead_lettered s.status in
            let mine : p.job_id ≡ job_id = ground arith in
            let over : j.status ≡ JobStatus.dead_lettered =
              ground (arith, v.coherent j p m (rw mine ej)) in
            let hit : changed q (replay_row d.now) p ≡ replay_row d.now p = ground arith in
            (
              replay_row d.now p,
              rw steps (rw (← hit) (In-update q (replay_row d.now) m)),
              mine,
              ground (arith, str_eq_iff p.name step_name),
              refl,
              ground (arith, resumed j jobs ej over, replay_now, mine),
            )
      ]
    ]
  ]
