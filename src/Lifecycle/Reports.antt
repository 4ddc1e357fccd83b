-- ===== src/Lifecycle/Reports.antt =====
-- The reports of a worker move the rows along the state machines.
use platform_forge.Claims.Claim.{job_with}
use platform_forge.Api.Jobs.{jobs}
use platform_forge.Invariant.{Inv}
use platform_forge.Invariant.Claim.{job_with-some}
use platform_forge.Claims.Claimed.{owned, ClaimedStep}
use platform_forge.Effects.{at, published}
use platform_forge.Metrics.{Metric}
use platform_forge.Claims.Complete.{
  completable, complete_success, succeed_row, unblock_row, has_cancelled, Failure, next_blocked,
  complete_failure,
}
use platform_forge.Effects.Failure.{
  failure_stale, owned_row, failure_retry, failure_dead, failure_cancelled,
}
use platform_forge.Models.{JobRow, is_active, job_is_running, is_running, StepRow, Value, Db}
use platform_forge.Effects.Success.{
  success_done, success_jobs, refused_same, IsIssued, cancelled_unowned,
}
use platform_forge.Lifecycle.{StepMove, StepTurn, Refines}
use platform_forge.Lifecycle.Rows.{
  unmoved_steps, unmoved_jobs, moved_steps, moved_jobs, mapped_steps, ends, unblocks_blocked,
  finishes_running, dies_running,
}
use platform_forge.Lifecycle.{succeeding, failing}
use platform_forge.Prelude.{
  ◌+◌, ◌≡◌, List, In, true, arith, ltb, inr, ◌&&◌, refl, find, Option-cases, update-update-eq-map,
  changed, inl, ◌∙◌, Bool-cases,
}

module _ (d : Db) (ms : List Metric) (v : Inv d) (c : ClaimedStep) where
  -- The row that succeeds is not the one that it unblocks.
  advanced :
      (output : Value) (s : StepRow)
      → StepTurn (succeeding c) s (
          changed
            (next_blocked c.job_id (c.seq + 1))
            (unblock_row d.now)
            (changed (completable c.step_id c.fencing_token d) (succeed_row d.now output) s))
  unfolding completable
  advanced output s = elim (Bool-cases (completable c.step_id c.fencing_token d s)) [
    | inl t ↦
        ends s _ (inl (ground arith)) StepMove.completes (ground arith) (ground arith)
          (ground arith) (ground arith) (ground arith)
    | inr f ↦ elim (Bool-cases (next_blocked c.job_id (c.seq + 1) s)) [
      | inl t ↦
          rw (f, t)
            (record {
              id = refl;
              job_id = refl;
              turn = inr (
                inr (ground arith, ground arith),
                unblocks_blocked s.status s.fencing_token (ground arith),
              );
            })
      | inr n ↦ rw (f, n) (record { id = refl; job_id = refl; turn = inl (refl, refl) })
    ]
  ]

  pub complete_success-Refines :
      (output : Value)
      → IsIssued d c
      → Refines (succeeding c) d (published (complete_success c output (at d ms)))
  complete_success-Refines output is =
      elim (Option-cases (find (completable c.step_id c.fencing_token d) d.steps)) [
        | inl e ↦
            let (steps, jobs) = refused_same c output d ms v is e in
            record { steps = unmoved_steps _ _ steps; jobs = unmoved_jobs _ _ jobs }
        | inr (p, e) ↦
            let (steps, _, _) = success_done c output d ms p e in
            record {
              steps =
                  mapped_steps _ d.steps _ (steps ∙ update-update-eq-map _ _ _ _ d.steps)
                    (λ s _. advanced output s);
              jobs = elim (success_jobs c output d ms p e) [
                | inl same ↦ unmoved_jobs _ _ same
                | inr ended ↦ moved_jobs _ _ _ _ ended λ j _ h. record {
                  id = refl;
                  turn = inr (ground arith, finishes_running j.status (ground arith));
                }
              ];
            }
      ]

  -- The job of a step that runs, runs.
  runs_with :
      (p : StepRow) (j : JobRow)
      → In p d.steps
      → is_running p.status ≡ true
      → In j d.jobs
      → j.id ≡ p.job_id
      → is_active j.status ≡ true
      → job_is_running j.status ≡ true
  runs_with p j m h mj same active =
      let (k, e) = v.keyed.has_job p m in
      let (mk, hk) = job_with-some p.job_id d k e in
      let one : k ≡ j = v.keyed.job_id k j mk mj (ground arith) in
      let fit = v.coherent k p m e in ground arith

  pub complete_failure-Refines :
      (f : Failure)
      → IsIssued d c
      → Refines (failing c) d (published (complete_failure c f (at d ms)))
  complete_failure-Refines f is =
      elim (Option-cases (find (owned c.step_id c.fencing_token) d.steps)) [
        | inl e ↦
            let (steps, jobs, _) = failure_stale c f d ms e in
            record { steps = unmoved_steps _ _ steps; jobs = unmoved_jobs _ _ jobs }
        | inr (p, e) ↦ elim (Bool-cases (has_cancelled (job_with c.job_id d))) [
          | inl h ↦
              let (steps, jobs, _) = failure_cancelled c f d ms p e h in
              record {
                steps = unmoved_steps _ _ (steps ∙ cancelled_unowned c d v is h);
                jobs = unmoved_jobs _ _ jobs;
              }
          | inr h ↦ elim (Bool-cases (f.retryable && ltb c.attempt_count c.max_attempts)) [
            | inl again ↦
                let (steps, jobs, _) = failure_retry c f d ms p e h again in
                record {
                  steps = moved_steps _ _ _ _ steps λ s _ h.
                      ends s _ (ground arith) StepMove.retries refl refl (ground arith) refl refl;
                  jobs = unmoved_jobs _ _ jobs;
                }
            | inr again ↦
                let (steps, jobs, _) = failure_dead c f d ms p e h again in
                let (m, mine, same) = owned_row c f d ms v is p e in
                record {
                  steps = moved_steps _ _ _ _ steps λ s _ h.
                      ends s _ (ground arith) StepMove.dies refl refl (ground arith) refl refl;
                  jobs = moved_jobs _ _ _ _ jobs λ j mj h. record {
                    id = refl;
                    turn = inr (
                      ground arith,
                      dies_running j.status
                          (runs_with p j m (ground arith) mj (ground arith) (ground arith)),
                    );
                  };
                }
          ]
        ]
      ]
