-- ===== src/Durable/Completions.antt =====
-- A completion and a submit keep every job and every step.
use platform_forge.Store.{Session, Error}
use platform_forge.Effects.SubmitLaws.{
  submit_atomic, created_tables, submit_duplicate, unknown_raises,
}
use platform_forge.Metrics.{Metric}
use platform_forge.Claims.Submit.{submit_job}
use platform_forge.Effects.{published, at}
use platform_forge.Registry.{Workflow, get}
use platform_forge.Invariant.{Inv}
use platform_forge.Claims.Claimed.{ClaimedStep}
use platform_forge.Effects.Success.{refused_same, IsIssued, success_done, success_jobs}
use platform_forge.Claims.Complete.{
  next_blocked, succeed_row, completable, complete_success, unblock_row,
}
use platform_forge.Models.{Db, StepRow, Value}
use platform_forge.Durable.{
  Keeps, steps_updated, SameStep-trans, steps_same, StepsKept, jobs_same, SameStep, jobs_updated,
  jobs_grown, steps_grown,
}
use platform_forge.Prelude.{
  ℕ, Option-cases, inr, refl, List, ◌≡◌, true, find, ◌+◌, arith, String, inl, Result, Result-cases,
  Bool-cases, ap, Bool,
}

kept_twice : (xs ys zs : List StepRow) → StepsKept xs ys → StepsKept ys zs → StepsKept xs zs
kept_twice xs ys zs a b s m =
    let (t, mt, st) = a s m in let (u, mu, tu) = b t mt in (u, mu, SameStep-trans s t u st tu)

module _ (d : Db) (ms : List Metric) (v : Inv d) where
  completed_kept :
      (c : ClaimedStep) (output : Value) (s : StepRow)
      → completable c.step_id c.fencing_token d s ≡ true
      → SameStep s (succeed_row d.now output s)
  unfolding completable
  completed_kept c output s h = ground arith

  pub complete_success-Keeps :
      (c : ClaimedStep) (output : Value)
      → IsIssued d c
      → Keeps d (published (complete_success c output (at d ms)))
  complete_success-Keeps c output is =
      elim (Option-cases (find (completable c.step_id c.fencing_token d) d.steps)) [
        | inl e ↦
            let (steps, jobs) = refused_same c output d ms v is e in
            record { steps = steps_same _ _ steps; jobs = jobs_same _ _ jobs }
        | inr (p, e) ↦
            let (steps, _, _) = success_done c output d ms p e in
            record {
              steps =
                  kept_twice _ _ _
                    (steps_updated (completable c.step_id c.fencing_token d)
                      (succeed_row d.now output) d.steps _ refl
                      (λ s _ h. completed_kept c output s h))
                    (steps_updated (next_blocked c.job_id (c.seq + 1)) (unblock_row d.now) _ _ steps
                      (λ s _ h. ground arith));
              jobs = elim (success_jobs c output d ms p e) [
                | inl same ↦ jobs_same _ _ same
                | inr ended ↦ jobs_updated _ _ _ _ ended (λ j h. ground arith)
              ];
            }
      ]

module _ {ℓ} {H : Type ℓ} (uuid4 : ℕ → ℕ) (registry : List (Workflow H)) (name key : String)
    (input : Value) (d : Db) (ms : List Metric) (v : Inv d) where
  abbrev result : Result Error (ℕ × Bool) × Session
  result = submit_job uuid4 registry name key input (at d ms)

  unchanged : published result ≡ d → Keeps d (published result)
  unchanged e = record {
    steps = steps_same _ _ (ap (λ (x : Db). x.steps) e);
    jobs = jobs_same _ _ (ap (λ (x : Db). x.jobs) e);
  }

  pub submit_job-Keeps : Keeps d (published result)
  submit_job-Keeps = elim (Result-cases result.0) [
    | inl (e, h) ↦ unchanged (submit_atomic uuid4 registry name key input d ms e h)
    | inr ((id, new), h) ↦ elim (Bool-cases new) [
      | inl n ↦ elim (Option-cases (get registry name)) [
        | inl n ↦ absurd (unknown_raises uuid4 registry name key input d ms (id, new) n h)
        | inr (wf, w) ↦
            let (full, jobs, _, _) =
              created_tables uuid4 registry name key input d ms wf id v w (rw n at h) in
            record { steps = steps_grown _ _ full.kept; jobs = jobs_grown _ _ _ jobs }
      ]
      | inr old ↦ unchanged (submit_duplicate uuid4 registry name key input d ms id (rw old at h)).0
    ]
  ]
