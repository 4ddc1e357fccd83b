-- ===== src/Effects/Submit.antt =====
-- `submit_job`: the rows that it inserts, and the invariant.
use platform_forge.Effects.{published, at}
use platform_forge.Metrics.{Metric}
use platform_forge.Invariant.Filled.{IsFilled}
use platform_forge.Registry.{Step, get, Workflow}
use platform_forge.Store.{Session, Error}
use native.Mathlib.Decide.{ℕ_discrete}
use platform_forge.Models.{StepRow, StepStatus, Value, JobRow, Db}
use platform_forge.Claims.Submit.{
  clashes, insert_step, insert_steps, new_step, insert_job, submit_job, submit_new, has_key,
  submit_existing, new_job,
}
use native.Mathlib.Nat.{zero-add}
use platform_forge.Prelude.{
  ℕ, refl, ◌≡◌, any-false, In-append_left, suc, ok, here, any, In-insert-cases, false,
  In-append_right, insert, ◌+◌, none, sym, ◌==◌, ◌∷◌, ◌<◌, [], ◌∙◌, length, inr, In, List, arith,
  inl, if◌then◌else◌, some, Bool, true, String, Result,
}

module _ (base steps : List StepRow) (id n : ℕ) (row : StepRow)
    (free : any (clashes row) steps ≡ false) where
  no_clash : (s : StepRow) → In s steps → clashes row s ≡ false
  no_clash s m = any-false (clashes row) m free

  insert-IsFilled :
      row.job_id ≡ id
      → row.seq ≡ n
      → 0 < n
      → row.status ≡ (if n == 1 then StepStatus.pending else StepStatus.blocked)
      → row.leased_until ≡ none
      → row.worker_id ≡ none
      → row.fencing_token ≡ 0
      → IsFilled base id n steps
      → IsFilled base id (suc n) (insert row steps)
  insert-IsFilled ej en pos es el ew et f = record {
    cases = λ s m. elim (In-insert-cases steps m) [
      | inl old ↦ elim (f.cases s old) [
        | inl b ↦ inl b
        | inr new ↦ inr (record {
          job_id = new.job_id;
          below = omega (arith, new.below);
          positive = new.positive;
          status = new.status;
          unleased = new.unleased;
          token = new.token;
        })
      ]
      | inr e ↦ inr (
          rw e (record {
            job_id = ej;
            below = omega arith;
            positive = omega arith;
            status = rw en es;
            unleased = (el, ew);
            token = et;
          }))
    ];
    kept = λ s m. In-append_left _ (f.kept s m);
    by_id = λ s t m k e. elim (In-insert-cases steps m) [
      | inl ms ↦ elim (In-insert-cases steps k) [
        | inl mt ↦ f.by_id s t ms mt e
        | inr et ↦ absurd (ground (arith, no_clash s ms))
      ]
      | inr es ↦ elim (In-insert-cases steps k) [
        | inl mt ↦ absurd (ground (arith, no_clash t mt))
        | inr et ↦ cc
      ]
    ];
    by_seq = λ s t m k e e'. elim (In-insert-cases steps m) [
      | inl ms ↦ elim (In-insert-cases steps k) [
        | inl mt ↦ f.by_seq s t ms mt e e'
        | inr et ↦ absurd (ground (arith, no_clash s ms))
      ]
      | inr es ↦ elim (In-insert-cases steps k) [
        | inl mt ↦ absurd (ground (arith, no_clash t mt))
        | inr et ↦ cc
      ]
    ];
    numbered = λ m p lt. elim (ℕ_discrete m n) [
      | yes e ↦ (row, In-append_right steps here, ej, en ∙ sym e)
      | no ne ↦
          let (t, mt, tj, ts) = f.numbered m p (omega arith) in (t, In-append_left _ mt, tj, ts)
    ];
  }

-- The session after one more row.
abbrev pub with_row : StepRow → Session → Session
with_row row s = record s { work = record s.work { steps = insert row s.work.steps } }

module _ {ℓ} {H : Type ℓ} (uuid4 : ℕ → ℕ) (base : List StepRow) (id : ℕ) where
  insert_steps_cons :
      (n : ℕ) (step : Step H) (steps : List (Step H)) (s : Session)
      → (insert_steps uuid4 id n (step ∷ steps) s).0 ≡ ok tt
      → let row = new_step s.work.now (uuid4 n) id n step in
        (any (clashes row) s.work.steps ≡ false)
        × (insert_steps uuid4 id n (step ∷ steps) s
            ≡ insert_steps uuid4 id (suc n) steps (with_row row s))
  unfolding insert_steps insert_step
  insert_steps_cons n step steps s e = ground arith

  -- The loop that inserts the steps, where it does not raise.
  pub insert_steps-IsFilled :
      (n : ℕ) (steps : List (Step H)) (s : Session)
      → 0 < n
      → IsFilled base id n s.work.steps
      → (insert_steps uuid4 id n steps s).0 ≡ ok tt
      → IsFilled base id (length steps + n) (insert_steps uuid4 id n steps s).1.work.steps
        × ((insert_steps uuid4 id n steps s).1.work.jobs ≡ s.work.jobs)
        × ((insert_steps uuid4 id n steps s).1.committed ≡ s.committed)
  unfolding insert_steps
  insert_steps-IsFilled n [] s pos f e = (rw zero-add f, refl, refl)
  insert_steps-IsFilled n (step ∷ steps) s pos f e =
      let row : StepRow = new_step s.work.now (uuid4 n) id n step in
      let (free, same) = insert_steps_cons n step steps s e in
      let filled : IsFilled base id (suc n) (insert row s.work.steps) =
        insert-IsFilled base s.work.steps id n row free refl refl pos refl refl refl refl f in
      let moved : length steps + suc n ≡ suc (length steps) + n = omega arith in
      rw (same, ← moved)
        (insert_steps-IsFilled (suc n) steps (with_row row s) (omega arith) filled (rw same at e))

module _ {ℓ} {H : Type ℓ} (uuid4 : ℕ → ℕ) (registry : List (Workflow H)) (name key : String)
    (input : Value) (d : Db) (ms : List Metric) where
  abbrev submitted : Result Error (ℕ × Bool) × Session
  submitted = submit_job uuid4 registry name key input (at d ms)

  -- The row of the new job.
  abbrev pub job_row : JobRow
  job_row = new_job d.now (uuid4 0) name key input

  -- The session when the steps are inserted.
  abbrev filled : List (Step H) → Result Error (Unit {0}) × Session
  filled steps =
      insert_steps uuid4 (uuid4 0) 1 steps
        (record { committed = d; work = record d { jobs = insert job_row d.jobs }; metrics = ms })

  -- What is inserted when the submit creates a job.
  pub submit_created :
      (wf : Workflow H) {id : ℕ}
      → get registry name ≡ some wf
      → submitted.0 ≡ ok (id, true)
      → (any (λ j. j.id == uuid4 0) d.jobs ≡ false)
        × (any (has_key name key) d.jobs ≡ false)
        × ((filled wf.steps).0 ≡ ok tt)
        × ((published submitted).steps ≡ (filled wf.steps).1.work.steps)
        × ((published submitted).jobs ≡ (filled wf.steps).1.work.jobs)
  unfolding submit_job insert_job submit_new submit_existing
  submit_created wf e h = ground arith
