-- ===== src/Claims/Claim.antt =====
-- CLAIM_SQL and `claim_step` of src/workflow_engine/claims.py. The rows that other transactions
-- hold locked, which SKIP LOCKED passes over, are an argument.
use platform_forge.Prelude.{
  ℕ, ◌+◌, ltb, leb, ◌==◌, ◌&&◌, ◌||◌, not, Bool, false, String, List, Option, none, some, select,
  find, any, first_by, order_by, map, insert, if◌then◌else◌,
}
use platform_forge.Models.{
  JobRow, StepRow, Db, JobStatus, StepStatus, Outcome, is_active, is_pending, is_running,
  is_succeeded, job_is_cancelled, job_is_queued,
}
use platform_forge.Metrics.{steps_claimed, lease_expired}
use platform_forge.Store.{
  M, ◌>>=◌, ◌>>◌, pure, query, execute, commit, raise, assertion_failed, rollback, inc, update_jobs,
  update_steps,
}
use platform_forge.Claims.Claimed.{ClaimedStep, input_dict, finish_attempt, owned, cancel_row}

-- JOIN jobs j ON j.id = s.job_id
unfoldable pub job_with : ℕ → Db → Option JobRow
job_with job_id d = find (λ j. j.id == job_id) d.jobs

-- leased_until < now(), which is not true of NULL
abbrev pub is_before : Option ℕ → ℕ → Bool
is_before none now = false
is_before (some t) now = ltb t now

-- Pending and due, or running with an expired lease.
abbrev pub is_ready : ℕ → StepRow → Bool
is_ready now s =
    (is_pending s.status && leb s.run_after now)
    || (is_running s.status && is_before s.leased_until now)

abbrev pub has_active : Option JobRow → Bool
has_active none = false
has_active (some j) = is_active j.status

-- The WHERE clause of CLAIM_SQL.
unfoldable pub claimable : Db → StepRow → Bool
claimable d s = has_active (job_with s.job_id d) && is_ready d.now s

-- ORDER BY s.run_after, s.id
abbrev pub before : StepRow → StepRow → Bool
before s t = ltb s.run_after t.run_after || (s.run_after == t.run_after && ltb s.id t.id)

-- The common table expression `picked`.
unfoldable pub picked : (ℕ → Bool) → Db → Option StepRow
picked locked d = first_by before (select (λ s. claimable d s && not (locked s.id)) d.steps)

-- The SET clause of CLAIM_SQL.
abbrev pub lease_row : ℕ → String → ℕ → StepRow → StepRow
lease_row now worker_id lease_ttl s = record s {
  status = StepStatus.running;
  worker_id = some worker_id;
  fencing_token = s.fencing_token + 1;
  leased_until = some (now + lease_ttl);
  attempt_count = s.attempt_count + 1;
  updated_at = now;
}

-- CLAIM_SQL: the leased row, and the row as it was picked.
unfoldable pub claim_sql : (ℕ → Bool) → String → ℕ → M (Option (StepRow × StepRow))
claim_sql locked worker_id lease_ttl = do
  now ← query (λ d. d.now)
  row ← query (picked locked)
  elim row [
    | none ↦ pure none
    | some p ↦ do
      execute (update_steps (λ s. s.id == p.id) (lease_row now worker_id lease_ttl))
      pure (some (lease_row now worker_id lease_ttl p, p))
  ]

-- INSERT INTO attempts ... ON CONFLICT (step_id, fencing_token) DO NOTHING
unfoldable pub insert_attempt : ℕ → ℕ → String → Db → Db
insert_attempt step_id token worker_id d = record d {
  next_attempt = d.next_attempt + 1;
  attempts =
      if any (λ a. a.step_id == step_id && a.fencing_token == token) d.attempts
      then d.attempts
      else insert
          (record {
            id = d.next_attempt;
            step_id = step_id;
            fencing_token = token;
            worker_id = worker_id;
            started_at = d.now;
            finished_at = none;
            outcome = Outcome.started;
            error = none;
          })
          d.attempts;
}

-- The outputs of the succeeded steps before `seq`, in order.
unfoldable pub upstream : ℕ → ℕ → Db → List StepRow
upstream job_id seq d =
    order_by (λ s. s.seq)
      (select (λ s. s.job_id == job_id && ltb s.seq seq && is_succeeded s.status) d.steps)

-- The claim of a job that was cancelled after the row was picked.
unfoldable pub claim_cancelled : StepRow → M (Option ClaimedStep)
claim_cancelled row = do
  finish_attempt row.id row.fencing_token Outcome.cancelled (some "job cancelled during claim")
  execute λ d. update_steps (owned row.id row.fencing_token) (cancel_row d.now) d
  commit
  pure none

abbrev pub start_job : ℕ → JobRow → JobRow
start_job now j = record j { status = JobStatus.running; updated_at = now }

-- UPDATE jobs SET status = 'running' WHERE id = %s AND status = 'queued', and the row read again.
unfoldable pub start_queued : ℕ → JobRow → M (Option JobRow)
start_queued job_id job =
    if job_is_queued job.status
    then (do
      execute λ d. update_jobs (λ j. j.id == job_id && job_is_queued j.status) (start_job d.now) d
      query (job_with job_id))
    else pure (some job)

abbrev pub claimed_step : StepRow → Bool → JobRow → List StepRow → ClaimedStep
claimed_step row steal job outputs = record {
  step_id = row.id;
  job_id = row.job_id;
  seq = row.seq;
  name = row.name;
  fencing_token = row.fencing_token;
  attempt_count = row.attempt_count;
  max_attempts = row.max_attempts;
  timeout_seconds = row.timeout_seconds;
  steal = steal;
  workflow_name = job.workflow_name;
  idempotency_key = job.idempotency_key;
  job_input = input_dict job.input;
  upstream_outputs = map (λ u. (u.name, u.output)) outputs;
  job_status = job.status;
}

-- The rest of the claim, with the assertion that the job is there.
unfoldable pub claim_granted : StepRow → Bool → Option JobRow → M (Option ClaimedStep)
claim_granted row steal job = do
  outputs ← query (upstream row.job_id row.seq)
  commit
  inc (steps_claimed row.name steal)
  if steal then inc (lease_expired row.name) else pure tt
  elim job [
    | none ↦ raise assertion_failed
    | some j ↦ pure (some (claimed_step row steal j outputs))
  ]

-- The statements after CLAIM_SQL has returned a row.
unfoldable pub claim_row : String → StepRow → Bool → M (Option ClaimedStep)
claim_row worker_id row steal = do
  execute (insert_attempt row.id row.fencing_token worker_id)
  found ← query (job_with row.job_id)
  elim found [
    | none ↦ rollback >> pure none
    | some job ↦
        if job_is_cancelled job.status
        then claim_cancelled row
        else (do claim_granted row steal (← start_queued row.job_id job))
  ]

unfoldable pub claim_step : (ℕ → Bool) → String → ℕ → M (Option ClaimedStep)
claim_step locked worker_id lease_ttl = do
  result ← claim_sql locked worker_id lease_ttl
  elim result [
    | none ↦ rollback >> pure none
    | some (row, p) ↦ claim_row worker_id row (is_running p.status)
  ]
