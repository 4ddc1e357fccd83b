-- ===== src/Claims/Submit.antt =====
-- `submit_job` of src/workflow_engine/claims.py, up to the `load_job` that it returns: it returns
-- the id of the job, and whether the job is new. `uuid4` is an argument: `uuid4 0` is the id of the
-- job, and `uuid4 k` that of its k-th step.
use platform_forge.Prelude.{
  ℕ, suc, ◌==◌, ◌&&◌, ◌||◌, not, leb, Bool, true, false, String, List, [], ◌∷◌, Option, none, some,
  find, any, insert, str_eq, if◌then◌else◌,
}
use platform_forge.Models.{Value, JobRow, StepRow, JobStatus, StepStatus}
use platform_forge.Metrics.{jobs_submitted}
use platform_forge.Registry.{Step, Workflow, get}
use platform_forge.Store.{
  M, ◌>>=◌, ◌>>◌, pure, raise, query, execute, commit, inc, notify, unknown_workflow, lost_job_row,
  integrity_error,
}

-- char_length
unfoldable pub char_length : String → ℕ
char_length String.[] = 0
char_length (String.◌∷◌ c s) = suc (char_length s)

abbrev pub has_key : String → String → JobRow → Bool
has_key workflow_name key j = str_eq j.workflow_name workflow_name && str_eq j.idempotency_key key

abbrev pub new_job : ℕ → ℕ → String → String → Value → JobRow
new_job now id workflow_name key input = record {
  id = id;
  workflow_name = workflow_name;
  idempotency_key = key;
  status = JobStatus.queued;
  input = input;
  created_at = now;
  updated_at = now;
}

-- The INSERT of the job: `none` on a conflict of the key. A repeated id and a key of a length that
-- jobs_idempotency_key_len forbids raise.
unfoldable pub insert_job : ℕ → String → String → Value → M (Option ℕ)
insert_job id workflow_name key input = do
  conflict ← query (λ d. any (has_key workflow_name key) d.jobs)
  taken ← query (λ d. any (λ j. j.id == id) d.jobs)
  if not (leb 1 (char_length key) && leb (char_length key) 200)
      then raise integrity_error
      else (if conflict
          then pure none
          else (if taken then raise integrity_error else (do
            execute
                λ d. record d { jobs = insert (new_job d.now id workflow_name key input) d.jobs }
            pure (some id))))

abbrev pub new_step {ℓ} : {H : Type ℓ} → ℕ → ℕ → ℕ → ℕ → Step H → StepRow
new_step now id job_id seq step = record {
  id = id;
  job_id = job_id;
  seq = seq;
  name = step.name;
  status = if seq == 1 then StepStatus.pending else StepStatus.blocked;
  run_after = now;
  leased_until = none;
  worker_id = none;
  fencing_token = 0;
  attempt_count = 0;
  max_attempts = step.max_attempts;
  timeout_seconds = step.timeout_seconds;
  output = none;
  last_error = none;
  updated_at = now;
}

-- What the constraints of the table `steps` refuse beside the new row.
abbrev pub clashes : StepRow → StepRow → Bool
clashes new s =
    s.id == new.id || (s.job_id == new.job_id && (s.seq == new.seq || str_eq s.name new.name))

-- The INSERT of one step, with the checks of the table's constraints.
unfoldable pub insert_step : StepRow → M (Unit {0})
insert_step row = do
  clash ← query (λ d. any (clashes row) d.steps)
  if clash || not (leb 1 row.max_attempts && leb 1 row.seq)
      then raise integrity_error
      else execute (λ d. record d { steps = insert row d.steps })

-- The answer to a submit whose key is taken.
unfoldable pub submit_existing : String → String → M (ℕ × Bool)
submit_existing workflow_name key = do
  existing ← query (λ d. find (has_key workflow_name key) d.jobs)
  elim existing [
    | none ↦ raise lost_job_row
    | some j ↦ do commit; inc (jobs_submitted workflow_name true); pure (j.id, false)
  ]

module _ {ℓ} {H : Type ℓ} (uuid4 : ℕ → ℕ) where
  -- The loop over the steps of the workflow, numbered from `seq`.
  unfoldable pub insert_steps : ℕ → ℕ → List (Step H) → M (Unit {0})
  insert_steps job_id seq [] = pure tt
  insert_steps job_id seq (step ∷ steps) = do
    now ← query (λ d. d.now)
    insert_step (new_step now (uuid4 seq) job_id seq step)
    insert_steps job_id (suc seq) steps

  unfoldable pub submit_new : ℕ → Workflow H → String → M (ℕ × Bool)
  submit_new id wf workflow_name = do
    insert_steps id 1 wf.steps
    execute notify
    commit
    inc (jobs_submitted workflow_name false)
    pure (id, true)

  unfoldable pub submit_job : List (Workflow H) → String → String → Value → M (ℕ × Bool)
  submit_job registry workflow_name key input = elim (get registry workflow_name) [
    | none ↦ raise unknown_workflow
    | some wf ↦ do
      inserted ← insert_job (uuid4 0) workflow_name key input
      elim inserted [
        | none ↦ submit_existing workflow_name key
        | some id ↦ submit_new id wf workflow_name
      ]
  ]
