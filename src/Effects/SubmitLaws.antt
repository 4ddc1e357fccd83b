-- ===== src/Effects/SubmitLaws.antt =====
-- `submit_job` is atomic and idempotent, and keeps the invariant.
use platform_forge.Invariant.Submit.{submit-Inv}
use platform_forge.Invariant.Filled.{IsFilled}
use platform_forge.Invariant.{Inv}
use platform_forge.Effects.{at, published}
use platform_forge.Effects.Submit.{with_row, submit_created, insert_steps-IsFilled}
use platform_forge.Models.{JobRow, Db, Value}
use platform_forge.Metrics.{Metric}
use platform_forge.Claims.Submit.{
  submit_new, insert_job, insert_steps, submit_job, new_step, has_key, insert_step, submit_existing,
  new_job,
}
use platform_forge.Store.{Session, Error}
use platform_forge.Registry.{Step, Workflow, get}
use platform_forge.Prelude.{
  ℕ, err, suc, refl, ◌∷◌, ok, Bool, String, [], ◌≡◌, find, some, List, false, arith, Result, inl,
  inr, Option-cases, insert, ◌<◌, length, ◌∙◌, true, ◌+◌, ◌≢◌, Bool-cases, Result-cases, none, ◌==◌,
  any,
}

module _ {ℓ} {H : Type ℓ} (uuid4 : ℕ → ℕ) (id : ℕ) where
  -- The inserts publish nothing by themselves.
  insert_steps_committed :
      (n : ℕ) (steps : List (Step H)) (s : Session)
      → (insert_steps uuid4 id n steps s).1.committed ≡ s.committed
  unfolding insert_steps insert_step
  insert_steps_committed n [] s = refl
  insert_steps_committed n (step ∷ steps) s = ground (
    arith,
    insert_steps_committed (suc n) steps (with_row (new_step s.work.now (uuid4 n) id n step) s),
  )

-- The session when the row of the job is inserted.
abbrev pub with_job : Db → List Metric → JobRow → Session
with_job d ms j = record { committed = d; work = record d { jobs = insert j d.jobs }; metrics = ms }

module _ {ℓ} {H : Type ℓ} (uuid4 : ℕ → ℕ) (registry : List (Workflow H)) (name key : String)
    (input : Value) (d : Db) (ms : List Metric) where
  abbrev submitted : Result Error (ℕ × Bool) × Session
  submitted = submit_job uuid4 registry name key input (at d ms)

  -- A submit that raises publishes nothing: no job without its steps.
  pub submit_atomic : (e : Error) → submitted.0 ≡ err e → published submitted ≡ d
  unfolding submit_job insert_job submit_new submit_existing
  submit_atomic e h = elim (Option-cases (get registry name)) [
    | inl n ↦ ground arith
    | inr (wf, w) ↦
        ground (arith, insert_steps_committed uuid4 (uuid4 0) 1 wf.steps (with_job d ms job))
  ]
    where
      job : JobRow
      job = new_job d.now (uuid4 0) name key input

  -- A submit that answers with an old job publishes nothing, and that job has its key.
  pub submit_duplicate :
      (id : ℕ)
      → submitted.0 ≡ ok (id, false)
      → (published submitted ≡ d)
        × ((j : JobRow) × (find (has_key name key) d.jobs ≡ some j) × (j.id ≡ id))
  unfolding submit_job insert_job submit_new submit_existing
  submit_duplicate id h = elim (Option-cases (find (has_key name key) d.jobs)) [
    | inl n ↦ absurd (ground arith)
    | inr (j, e) ↦ (ground arith, (j, e, ground arith))
  ]

  empty-IsFilled : Inv d → IsFilled d.steps (uuid4 0) 1 d.steps
  empty-IsFilled v = record {
    cases = λ s m. inl m;
    kept = λ s m. m;
    by_id = v.keyed.step_id;
    by_seq = v.keyed.step_seq;
    numbered = λ m p lt. absurd (omega arith);
  }

  -- A new job stands at the end of its table, and its steps are numbered from 1 beside the old ones.
  pub created_tables :
      (wf : Workflow H) (id : ℕ)
      → Inv d
      → get registry name ≡ some wf
      → submitted.0 ≡ ok (id, true)
      → IsFilled d.steps (uuid4 0) (length wf.steps + 1) (published submitted).steps
        × ((published submitted).jobs ≡ insert (new_job d.now (uuid4 0) name key input) d.jobs)
        × (any (λ j. j.id == uuid4 0) d.jobs ≡ false)
        × (any (has_key name key) d.jobs ≡ false)
  created_tables wf id v w e =
      let job : JobRow = new_job d.now (uuid4 0) name key input in
      let (free, unused, fine, steps, jobs) =
        submit_created uuid4 registry name key input d ms wf w e in
      let (full, same, _) =
        insert_steps-IsFilled uuid4 d.steps (uuid4 0) 1 wf.steps (with_job d ms job) (omega arith)
          (empty-IsFilled v) fine in
      (rw steps full, jobs ∙ same, free, unused)

  created-Inv :
      (wf : Workflow H) (id : ℕ)
      → Inv d
      → get registry name ≡ some wf
      → 0 < length wf.steps
      → submitted.0 ≡ ok (id, true)
      → Inv (published submitted)
  created-Inv wf id v w proper e =
      let (full, jobs, free, unused) = created_tables wf id v w e in
      submit-Inv d (published submitted) v (new_job d.now (uuid4 0) name key input)
        (length wf.steps + 1) (omega arith) free unused refl full jobs

  pub unknown_raises : (r : ℕ × Bool) → get registry name ≡ none → submitted.0 ≢ ok r
  unfolding submit_job
  unknown_raises r n e = ground arith

  -- A submit keeps the invariant, if the registry holds only workflows with steps.
  pub submit_job-Inv :
      Inv d
      → ((wf : Workflow H) → get registry name ≡ some wf → 0 < length wf.steps)
      → Inv (published submitted)
  submit_job-Inv v proper = elim (Result-cases submitted.0) [
    | inl (e, h) ↦ rw (submit_atomic e h) v
    | inr ((id, new), h) ↦ elim (Bool-cases new) [
      | inl yes_new ↦ elim (Option-cases (get registry name)) [
        | inl n ↦ absurd (unknown_raises (id, new) n h)
        | inr (wf, w) ↦ created-Inv wf id v w (proper wf w) (rw yes_new at h)
      ]
      | inr old ↦ rw (submit_duplicate id (rw old at h)).0 v
    ]
  ]
