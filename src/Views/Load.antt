-- ===== src/Views/Load.antt =====
-- `load_job` and `list_jobs`: the views that they return.
use platform_forge.Claims.Claim.{job_with}
use platform_forge.Models.{Db, StepRow, AttemptRow, JobRow}
use platform_forge.Store.{missing_job, Session}
use platform_forge.Claims.Load.{
  StepView, by_step, steps_of, load_job, append_to, attempts_of, group_of, JobView,
}
use platform_forge.Prelude.{
  ℕ, insert, In, select, some, inl, inr, none, true, ap, ◌&&◌, Option-cases, sym, err, Bool,
  In-order_by-cases, In-select, any, ◌==◌, In-order_by, ◌≡◌, ◌∙◌, if◌then◌else◌, [],
  In-select-cases, arith, List, ◌↔◌, ◌++◌, ◌∷◌, map, ok, append-nil, append_assoc, any-In, fun_ext,
}

group_of-append_to :
    (k key : ℕ) (a : AttemptRow) (m : List (ℕ × List AttemptRow))
    → group_of k (append_to key a m) ≡ (if key == k then insert a (group_of k m) else group_of k m)
unfolding group_of append_to
group_of-append_to k key a [] = ground arith
group_of-append_to k key a ((j, group) ∷ m) = ground (arith, group_of-append_to k key a m)

-- The loop over the attempts groups them as a SELECT for each step would.
group_of-by_step :
    (k : ℕ) (rows : List AttemptRow) (m : List (ℕ × List AttemptRow))
    → group_of k (by_step rows m) ≡ group_of k m ++ select (λ a. a.step_id == k) rows
unfolding by_step select
group_of-by_step k [] m = sym (append-nil (group_of k m))
group_of-by_step k (a ∷ rest) m =
    group_of-by_step k rest (append_to a.step_id a m)
    ∙ ground (
      arith,
      group_of-append_to k a.step_id a m,
      append_assoc (group_of k m) (a ∷ []) (select (λ a. a.step_id == k) rest),
    )

group_by_step :
    (k : ℕ) (rows : List AttemptRow)
    → group_of k (by_step rows []) ≡ select (λ a. a.step_id == k) rows
unfolding group_of
group_by_step k rows = group_of-by_step k rows []

-- The view of a step, by a SELECT of its own attempts.
abbrev pub step_view : ℕ → Db → StepRow → StepView
step_view job_id d s = record {
  step = s;
  attempts = select (λ a. a.step_id == s.id) (attempts_of job_id d);
}

module _ (job_id : ℕ) (s : Session) where
  -- The steps of the job, each with its group.
  abbrev grouped : List StepView
  grouped =
      map
        (λ t. record {
          step = t;
          attempts = group_of t.id (by_step (attempts_of job_id s.work) []);
        })
        (steps_of job_id s.work)

  grouped_views : grouped ≡ map (step_view job_id s.work) (steps_of job_id s.work)
  grouped_views =
      ap (λ (f : StepRow → StepView). map f (steps_of job_id s.work))
        (fun_ext λ t.
          ap (λ (g : List AttemptRow). let v : StepView = record { step = t; attempts = g } in v)
            (group_by_step t.id (attempts_of job_id s.work)))

  pub load_missing :
      job_with job_id s.work ≡ none → load_job job_id s ≡ (err (missing_job job_id), s)
  unfolding load_job
  load_missing n = ground arith

  load_found :
      (j : JobRow)
      → job_with job_id s.work ≡ some j
      → load_job job_id s ≡ (ok (record { job = j; steps = grouped }), s)
  unfolding load_job
  load_found j e = ground arith

  -- The view of a job that is there.
  pub job_view : JobRow → JobView
  job_view j = record { job = j; steps = map (step_view job_id s.work) (steps_of job_id s.work) }

  -- `load_job` writes nothing, and answers with the row of the job, its steps by seq, and for each step
  -- the attempts that a SELECT of that step alone gives, by start and id; without the job it raises
  -- KeyError.
  pub load_job_view : load_job job_id s ≡ (
    elim (job_with job_id s.work) [ none ↦ err (missing_job job_id) | some j ↦ ok (job_view j) ],
    s,
  )
  unfolding job_view
  load_job_view = elim (Option-cases (job_with job_id s.work)) [
    | inl n ↦ ground (arith, load_missing n)
    | inr (j, e) ↦ ground (arith, load_found j e, grouped_views)
  ]

-- Under each step of a job stand exactly the attempts of the table that name that step.
pub step_view-attempts :
    (job_id : ℕ) (d : Db) (s : StepRow) (a : AttemptRow)
    → In s d.steps
    → s.job_id ≡ job_id
    → In a (step_view job_id d s).attempts ↔ (In a d.attempts × (a.step_id ≡ s.id))
unfolding attempts_of
step_view-attempts job_id d s a m e =
    let mine : AttemptRow → Bool =
      λ a. any (λ s. s.id == a.step_id && s.job_id == job_id) d.steps in
    (
      λ n.
          let (k, h) = In-select-cases (λ a. a.step_id == s.id) a _ n in
          let rows =
            In-order_by-cases (λ (a : AttemptRow). a.id) a _
              (In-order_by-cases (λ (a : AttemptRow). a.started_at) a _ k) in
          ((In-select-cases mine a _ rows).0, ground arith),
      λ (n, h).
          let hit : any (λ s. s.id == a.step_id && s.job_id == job_id) d.steps ≡ true =
            any-In (λ s. s.id == a.step_id && s.job_id == job_id) m (ground arith) in
          In-select (λ a. a.step_id == s.id)
            (In-order_by _ a _ (In-order_by _ a _ (In-select mine n hit))) (ground arith),
    )
