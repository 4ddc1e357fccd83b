-- ===== src/Durable/Calls.antt =====
-- Each operation keeps every job and every step.
use platform_forge.Metrics.{Metric}
use platform_forge.Invariant.{Inv}
use platform_forge.Effects.Claim.{picked-claimable, claim_tables, claim_none}
use platform_forge.Claims.Cancel.{cancel_job, replay_step, active_job}
use platform_forge.Claims.Claimed.{owned, ClaimedStep}
use platform_forge.Claims.Heartbeat.{renew_row, beats, heartbeat, joined}
use platform_forge.Effects.Failure.{failure_dead, failure_stale, failure_retry, failure_cancelled}
use platform_forge.Models.{StepRow, is_dead_lettered, Db, is_succeeded}
use platform_forge.Claims.Complete.{Failure, has_cancelled, complete_failure}
use platform_forge.Effects.{at, published}
use platform_forge.Effects.Heartbeat.{heartbeat_tables, heartbeat_missed_tables}
use platform_forge.Claims.Claim.{claimable, picked, claim_step, job_with}
use platform_forge.Durable.{SameStep, Keeps, steps_same, jobs_same, jobs_updated, steps_updated}
use platform_forge.Effects.Cancel.{
  cancel_tables, replay_missing_step, replay_refused, replay_missing_job, replay_tables,
  cancel_refused,
}
use platform_forge.Prelude.{
  ℕ, Option-cases, String, inr, ◌≡◌, ◌==◌, Bool, str_eq, List, ltb, true, Bool-cases, inl, refl,
  find, false, ◌&&◌, arith,
}

module _ (d : Db) (ms : List Metric) (v : Inv d) where
  picked_open : (p : StepRow) → claimable d p ≡ true → is_succeeded p.status ≡ false
  unfolding claimable
  picked_open p h = ground arith

  pub claim_step-Keeps :
      (locked : ℕ → Bool) (worker : String) (ttl : ℕ)
      → Keeps d (published (claim_step locked worker ttl (at d ms)))
  claim_step-Keeps locked worker ttl = elim (Option-cases (picked locked d)) [
    | inl e ↦ rw (claim_none locked d worker ttl ms e).1 (same d)
    | inr (p, e) ↦
        let (m, ready, _) = picked-claimable locked d p e in
        let (j, ej) = v.keyed.has_job p m in
        let (steps, jobs) = claim_tables locked d worker ttl ms v p j e ej in
        record {
          steps =
              steps_updated _ _ _ _ steps
                λ s ms h. ground (arith, v.keyed.step_id s p ms m, picked_open p ready);
          jobs = jobs_updated _ _ _ _ jobs (λ j h. ground arith);
        }
  ]
    where
      same : (e : Db) → Keeps e e
      same e = record { steps = steps_same _ _ refl; jobs = jobs_same _ _ refl }

  renewed :
      (step_id : ℕ) (worker : String) (token ttl : ℕ) (s : StepRow)
      → beats step_id worker token s ≡ true
      → SameStep s (renew_row d.now ttl s)
  unfolding beats
  renewed step_id worker token ttl s h = ground arith

  pub heartbeat-Keeps :
      (step_id : ℕ) (worker : String) (token ttl : ℕ)
      → Keeps d (published (heartbeat step_id worker token ttl (at d ms)))
  heartbeat-Keeps step_id worker token ttl =
      elim (Option-cases (joined (beats step_id worker token) d)) [
        | inl e ↦
            rw (heartbeat_missed_tables step_id worker token ttl d ms e).0
              (record { steps = steps_same _ _ refl; jobs = jobs_same _ _ refl })
        | inr ((s, j), e) ↦
            let (steps, jobs, _) = heartbeat_tables step_id worker token ttl d ms s j e in
            record {
              steps = steps_updated _ _ _ _ steps (λ t _ h. renewed step_id worker token ttl t h);
              jobs = jobs_same _ _ jobs;
            }
      ]

  pub complete_failure-Keeps :
      (c : ClaimedStep) (f : Failure) → Keeps d (published (complete_failure c f (at d ms)))
  complete_failure-Keeps c f =
      elim (Option-cases (find (owned c.step_id c.fencing_token) d.steps)) [
        | inl e ↦
            let (steps, jobs, _) = failure_stale c f d ms e in
            record { steps = steps_same _ _ steps; jobs = jobs_same _ _ jobs }
        | inr (p, e) ↦ elim (Bool-cases (has_cancelled (job_with c.job_id d))) [
          | inl h ↦
              let (steps, jobs, _) = failure_cancelled c f d ms p e h in
              record {
                steps = steps_updated _ _ _ _ steps (λ s _ h. ground arith);
                jobs = jobs_same _ _ jobs;
              }
          | inr h ↦ elim (Bool-cases (f.retryable && ltb c.attempt_count c.max_attempts)) [
            | inl again ↦
                let (steps, jobs, _) = failure_retry c f d ms p e h again in
                record {
                  steps = steps_updated _ _ _ _ steps (λ s _ h. ground arith);
                  jobs = jobs_same _ _ jobs;
                }
            | inr again ↦
                let (steps, jobs, _) = failure_dead c f d ms p e h again in
                record {
                  steps = steps_updated _ _ _ _ steps (λ s _ h. ground arith);
                  jobs = jobs_updated _ _ _ _ jobs (λ j h. ground arith);
                }
          ]
        ]
      ]

  pub cancel_job-Keeps : (job_id : ℕ) → Keeps d (published (cancel_job job_id (at d ms)))
  cancel_job-Keeps job_id = elim (Option-cases (find (active_job job_id) d.jobs)) [
    | inl e ↦
        rw (cancel_refused job_id d ms e).0
          (record { steps = steps_same _ _ refl; jobs = jobs_same _ _ refl })
    | inr (k, e) ↦
        let (steps, jobs, _) = cancel_tables job_id d ms k e in
        record {
          steps = steps_updated _ _ _ _ steps (λ s _ h. ground arith);
          jobs = jobs_updated _ _ _ _ jobs (λ j h. ground arith);
        }
  ]

  pub replay_step-Keeps :
      (job_id : ℕ) (name : String) → Keeps d (published (replay_step job_id name (at d ms)))
  replay_step-Keeps job_id name = elim (Option-cases (job_with job_id d)) [
    | inl e ↦ rw (replay_missing_job job_id name d ms e).0 same
    | inr (j, e) ↦
        elim (Option-cases (find (λ s. s.job_id == job_id && str_eq s.name name) d.steps)) [
          | inl n ↦ rw (replay_missing_step job_id name d ms j e n).0 same
          | inr (p, ep) ↦ elim (Bool-cases (is_dead_lettered p.status)) [
            | inl dead ↦
                let (steps, jobs, _) = replay_tables job_id name d ms j p e ep dead in
                record {
                  steps = steps_updated _ _ _ _ steps (λ s _ h. ground arith);
                  jobs = jobs_updated _ _ _ _ jobs (λ j h. ground arith);
                }
            | inr alive ↦ rw (replay_refused job_id name d ms j p e ep alive).0 same
          ]
        ]
  ]
    where
      same : Keeps d d
      same = record { steps = steps_same _ _ refl; jobs = jobs_same _ _ refl }
