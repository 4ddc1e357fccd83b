-- ===== src/Examples/Data.antt =====
-- The data of the examples: the workflow `linear_naive`, and the tables along a short history in which
-- a worker loses its lease to another one.
use platform_forge.Worker.{Backoff}
use platform_forge.Handlers.{StepContext}
use platform_forge.Prelude.{◌++◌, ℕ, ◌+◌, Bool, true, false, [], ◌∷◌, some, none, String, List}
use platform_forge.Models.{Db, Value, JobRow, StepRow, AttemptRow, JobStatus, StepStatus, Outcome}
use platform_forge.Models.Values.{dict, end}
use platform_forge.Registry.{Workflow}
use platform_forge.Claims.Claimed.{ClaimedStep}
use platform_forge.Claims.Complete.{Failure}
use platform_forge.History.{empty}

abbrev pub demo : Workflow ℕ
demo = record {
  name = "linear_naive";
  steps =
      record { name = "charge"; handler = 0; max_attempts = 5; timeout_seconds = 10 }
      ∷ record { name = "notify"; handler = 1; max_attempts = 5; timeout_seconds = 10 }
      ∷ [];
}

abbrev pub no_locks : ℕ → Bool
no_locks id = false

-- Ids 10 (the job), 11 and 12 (its steps).
abbrev pub uuids : ℕ → ℕ
uuids k = 10 + k

abbrev pub payload : Value
payload = dict end

-- The row of the job, in a state.
abbrev pub the_job : JobStatus → JobRow
the_job status = record {
  id = 10;
  workflow_name = "linear_naive";
  idempotency_key = "k1";
  status = status;
  input = payload;
  created_at = 1000;
  updated_at = 1000;
}

abbrev pub charge_row : StepRow
charge_row = record {
  id = 11;
  job_id = 10;
  seq = 1;
  name = "charge";
  status = StepStatus.pending;
  run_after = 1000;
  leased_until = none;
  worker_id = none;
  fencing_token = 0;
  attempt_count = 0;
  max_attempts = 5;
  timeout_seconds = 10;
  output = none;
  last_error = none;
  updated_at = 1000;
}

abbrev pub notify_row : StepRow
notify_row = record charge_row { id = 12; seq = 2; name = "notify"; status = StepStatus.blocked }

-- The first step under its lease of a worker, taken at a time.
abbrev pub leased : ℕ → String → ℕ → StepRow
leased now worker token = record charge_row {
  status = StepStatus.running;
  leased_until = some (now + 15);
  worker_id = some worker;
  fencing_token = token;
  attempt_count = token;
  updated_at = now;
}

abbrev pub attempt : ℕ → ℕ → String → AttemptRow
attempt now token worker = record {
  id = token;
  step_id = 11;
  fencing_token = token;
  worker_id = worker;
  started_at = now;
  finished_at = none;
  outcome = Outcome.started;
  error = none;
}

abbrev pub empty_db : Db
empty_db = empty 1000

-- After the submit.
abbrev pub submitted_db : Db
submitted_db = record empty_db {
  jobs = the_job JobStatus.queued ∷ [];
  steps = charge_row ∷ notify_row ∷ [];
  wakes = 1;
}

-- After worker w1 has claimed the first step.
abbrev pub claimed_db : Db
claimed_db = record submitted_db {
  jobs = the_job JobStatus.running ∷ [];
  steps = leased 1000 "w1" 1 ∷ notify_row ∷ [];
  attempts = attempt 1000 1 "w1" ∷ [];
  next_attempt = 2;
}

-- Its lease has run out.
abbrev pub expired_db : Db
expired_db = record claimed_db { now = 1020 }

-- After worker w2 has stolen the step.
abbrev pub stolen_db : Db
stolen_db = record expired_db {
  steps = leased 1020 "w2" 2 ∷ notify_row ∷ [];
  attempts = attempt 1000 1 "w1" ∷ attempt 1020 2 "w2" ∷ [];
  next_attempt = 3;
}

-- The claim that a worker holds, by its token.
abbrev pub claim_of : ℕ → Bool → ClaimedStep
claim_of token steal = record {
  step_id = 11;
  job_id = 10;
  seq = 1;
  name = "charge";
  fencing_token = token;
  attempt_count = token;
  max_attempts = 5;
  timeout_seconds = 10;
  steal = steal;
  workflow_name = "linear_naive";
  idempotency_key = "k1";
  job_input = payload;
  upstream_outputs = [];
  job_status = JobStatus.running;
}

-- A failure of the handler, with the longest delay each time.
abbrev pub failure : Failure
failure = record {
  error = "RuntimeError";
  outcome = Outcome.failed;
  base_backoff = 2;
  max_backoff = 30;
  uniform = λ lo hi. hi;
  retryable = true;
}

-- A second job, under another key.
abbrev pub other_job : JobRow
other_job = record (the_job JobStatus.queued) { id = 20; idempotency_key = "k2" }

abbrev pub other_steps : List StepRow
other_steps =
    record charge_row { id = 21; job_id = 20 } ∷ record notify_row { id = 22; job_id = 20 } ∷ []

abbrev pub other_uuids : ℕ → ℕ
other_uuids k = 20 + k

-- The claim of its first step.
abbrev pub other_claim : ClaimedStep
other_claim = record (claim_of 1 false) { step_id = 21; job_id = 20; idempotency_key = "k2" }

-- The second job is submitted while w1 holds the first step of the first job.
abbrev pub busy_db : Db
busy_db = record claimed_db {
  jobs = the_job JobStatus.running ∷ other_job ∷ [];
  steps = leased 1000 "w1" 1 ∷ notify_row ∷ other_steps;
  wakes = 2;
}

abbrev cancelled_steps : List StepRow
cancelled_steps =
    record charge_row { status = StepStatus.cancelled }
    ∷ record notify_row { status = StepStatus.cancelled }
    ∷ []

-- The first job is cancelled before anyone claims it.
abbrev pub cancelled_db : Db
cancelled_db = record submitted_db {
  jobs = the_job JobStatus.cancelled ∷ [];
  steps = cancelled_steps;
}

-- The second job is submitted after that.
abbrev pub refilled_db : Db
refilled_db = record cancelled_db {
  jobs = the_job JobStatus.cancelled ∷ other_job ∷ [];
  steps = cancelled_steps ++ other_steps;
  wakes = 2;
}

-- A failure that is not tried again.
abbrev pub fatal : Failure
fatal = record failure { retryable = false }

-- The first job is cancelled while w1 runs its first step.
abbrev pub halted_db : Db
halted_db = record claimed_db {
  jobs = the_job JobStatus.cancelled ∷ [];
  steps =
      record (leased 1000 "w1" 1) {
        status = StepStatus.cancelled;
        leased_until = none;
        worker_id = none;
      }
      ∷ record notify_row { status = StepStatus.cancelled }
      ∷ [];
}

-- What a handler of the first step is given under a token.
abbrev pub context : ℕ → StepContext
context token = record {
  job_id = 10;
  step_id = 11;
  step_name = "charge";
  seq = 1;
  attempt_count = token;
  fencing_token = token;
  worker_id = "w1";
  idempotency_key = "linear_naive:k1:charge";
  workflow_name = "linear_naive";
  job_input = payload;
  upstream_outputs = [];
}

abbrev pub backoff : Backoff
backoff = record { base = 2; maximum = 30; uniform = λ lo hi. hi }
