-- ===== src/Lifecycle/Calls.antt =====
-- Every operation moves the rows along the state machines.
use platform_forge.Invariant.Claim.{job_with-some}
use platform_forge.Claims.Claimed.{ClaimedStep}
use platform_forge.Claims.Heartbeat.{joined, beats, heartbeat}
use platform_forge.Effects.Heartbeat.{heartbeat_missed_tables, heartbeat_tables}
use platform_forge.Effects.Cancel.{
  replay_missing_step, named, replay_tables, replay_refused, cancel_refused, cancel_tables,
  replay_missing_job,
}
use platform_forge.Claims.Cancel.{replay_step, cancel_job, active_job}
use platform_forge.Invariant.{Inv}
use platform_forge.Effects.{at, published}
use platform_forge.Claims.Claim.{claim_step, lease_row, claimable, picked, job_with}
use platform_forge.Effects.Claim.{claim_tables, picked-claimable, claim_none, claim_answer}
use platform_forge.Metrics.{Metric}
use platform_forge.Models.{Db, is_running, StepRow, is_pending, JobRow, is_dead_lettered}
use platform_forge.Api.Jobs.{jobs}
use platform_forge.Lifecycle.{StepTurn, Refines, offered}
use platform_forge.Lifecycle.Rows.{
  unmoved_jobs, moved_steps, moved_jobs, same-Refines, leases, cancels_live, cancels_active,
  starts_queued, replays_dead, resumes_dead,
}
use platform_forge.Lifecycle.{claiming, beating, cancelling, replaying}
use platform_forge.Prelude.{
  ℕ, ◌≡◌, List, Bool, true, inr, ◌||◌, refl, inl, arith, String, Option-cases, some, Bool-cases,
  find, str_eq_iff, find-some,
}

module _ (d : Db) (ms : List Metric) (v : Inv d) where
  picked_waits :
      (p : StepRow) → claimable d p ≡ true → (is_pending p.status || is_running p.status) ≡ true
  unfolding claimable
  picked_waits p h = ground arith

  leased :
      (now : ℕ) (worker : String) (ttl : ℕ) (c : ClaimedStep) (s : StepRow)
      → s.id ≡ c.step_id
      → (is_pending s.status || is_running s.status) ≡ true
      → StepTurn (claiming (some c)) s (lease_row now worker ttl s)
  leased now worker ttl c s on h = record {
    id = refl;
    job_id = refl;
    turn = inr (on, leases s.status s.fencing_token h);
  }

  pub claim_step-Refines :
      (locked : ℕ → Bool) (worker : String) (ttl : ℕ)
      → let r = claim_step locked worker ttl (at d ms) in
        Refines (claiming (offered r.0)) d (published r)
  claim_step-Refines locked worker ttl = elim (Option-cases (picked locked d)) [
    | inl e ↦ same-Refines d _ (claim_none locked d worker ttl ms e).1
    | inr (p, e) ↦
        let (m, ready, _) = picked-claimable locked d p e in
        let (j, ej) = v.keyed.has_job p m in
        let (steps, jobs) = claim_tables locked d worker ttl ms v p j e ej in
        let answer = claim_answer locked d worker ttl ms v p j e ej in
        let made = job_with-some p.job_id d j ej in
        rw answer (record {
          steps = moved_steps _ _ _ _ steps λ s k h.
              leased d.now worker ttl _ s (ground arith)
                (ground (arith, v.keyed.step_id s p k m, picked_waits p ready));
          jobs = moved_jobs _ _ _ _ jobs (λ k mk h. record {
            id = refl;
            turn = inr (ground (arith, made), starts_queued k.status (ground arith));
          });
        })
  ]

  pub heartbeat-Refines :
      (step_id : ℕ) (worker : String) (token ttl : ℕ)
      → Refines beating d (published (heartbeat step_id worker token ttl (at d ms)))
  heartbeat-Refines step_id worker token ttl =
      elim (Option-cases (joined (beats step_id worker token) d)) [
        | inl e ↦ same-Refines d _ (heartbeat_missed_tables step_id worker token ttl d ms e).0
        | inr ((s, j), e) ↦
            let (steps, jobs, _) = heartbeat_tables step_id worker token ttl d ms s j e in
            record {
              steps =
                  moved_steps _ _ _ _ steps
                    λ t _ h. record { id = refl; job_id = refl; turn = inl (refl, refl) };
              jobs = unmoved_jobs _ _ jobs;
            }
      ]

  pub cancel_job-Refines :
      (job_id : ℕ) → Refines (cancelling job_id) d (published (cancel_job job_id (at d ms)))
  cancel_job-Refines job_id = elim (Option-cases (find (active_job job_id) d.jobs)) [
    | inl e ↦ same-Refines d _ (cancel_refused job_id d ms e).0
    | inr (k, e) ↦
        let (steps, jobs, _) = cancel_tables job_id d ms k e in
        record {
          steps = moved_steps _ _ _ _ steps λ s _ h. record {
            id = refl;
            job_id = refl;
            turn = inr (ground arith, cancels_live s.status s.fencing_token (ground arith));
          };
          jobs = moved_jobs _ _ _ _ jobs λ j _ h. record {
            id = refl;
            turn = inr (ground arith, cancels_active j.status (ground arith));
          };
        }
  ]

  replayed :
      (job_id : ℕ) (name : String) (j : JobRow) (p : StepRow)
      → job_with job_id d ≡ some j
      → find (named job_id name) d.steps ≡ some p
      → is_dead_lettered p.status ≡ true
      → Refines (replaying job_id name) d (published (replay_step job_id name (at d ms)))
  replayed job_id name j p e ep dead =
      let (steps, jobs, _) = replay_tables job_id name d ms j p e ep dead in
      let (mp, hp) = find-some (named job_id name) p d.steps ep in
      record {
        steps = moved_steps _ _ _ _ steps λ s ms h. record {
          id = refl;
          job_id = refl;
          turn = inr (
            (
              ground (arith, v.keyed.step_id s p ms mp),
              ground (arith, v.keyed.step_id s p ms mp, str_eq_iff p.name name),
            ),
            replays_dead s.status s.fencing_token (ground arith),
          );
        };
        jobs = moved_jobs _ _ _ _ jobs λ j _ h. record {
          id = refl;
          turn = inr (ground arith, resumes_dead j.status (ground arith));
        };
      }

  pub replay_step-Refines :
      (job_id : ℕ) (name : String)
      → Refines (replaying job_id name) d (published (replay_step job_id name (at d ms)))
  replay_step-Refines job_id name = elim (Option-cases (job_with job_id d)) [
    | inl e ↦ same-Refines d _ (replay_missing_job job_id name d ms e).0
    | inr (j, e) ↦ elim (Option-cases (find (named job_id name) d.steps)) [
      | inl n ↦ same-Refines d _ (replay_missing_step job_id name d ms j e n).0
      | inr (p, ep) ↦ elim (Bool-cases (is_dead_lettered p.status)) [
        | inl dead ↦ replayed job_id name j p e ep dead
        | inr alive ↦ same-Refines d _ (replay_refused job_id name d ms j p e ep alive).0
      ]
    ]
  ]
