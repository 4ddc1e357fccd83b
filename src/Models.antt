-- ===== src/Models.antt =====
-- src/workflow_engine/models.py and schema.sql: the statuses, the payload values, and one row of
-- each table. A uuid and a timestamp (in microseconds) are numbers.
pub mod Values
pub use Values.{Value}
use platform_forge.Prelude.{ℕ, Bool, true, false, Option, String, List}

-- JOB_STATUSES
pub data JobStatus : Type 0 where
  queued running succeeded dead_lettered cancelled : JobStatus

-- STEP_STATUSES
pub data StepStatus : Type 0 where
  pending blocked running succeeded dead_lettered cancelled : StepStatus

-- attempts_outcome_chk
pub data Outcome : Type 0 where
  started succeeded failed rejected_fence cancelled timeout : Outcome

-- `status IN ('queued', 'running')`
abbrev pub is_active : JobStatus → Bool
is_active s = elim s [ JobStatus.queued ↦ true | JobStatus.running ↦ true | _ ↦ false ]

-- TERMINAL_JOB
abbrev pub is_terminal_job : JobStatus → Bool
is_terminal_job s = elim s [
  | JobStatus.succeeded ↦ true
  | JobStatus.dead_lettered ↦ true
  | JobStatus.cancelled ↦ true
  | _ ↦ false
]

-- TERMINAL_STEP
abbrev pub is_terminal_step : StepStatus → Bool
is_terminal_step s = elim s [
  | StepStatus.succeeded ↦ true
  | StepStatus.dead_lettered ↦ true
  | StepStatus.cancelled ↦ true
  | _ ↦ false
]

abbrev pub job_is_queued : JobStatus → Bool
job_is_queued s = elim s [ JobStatus.queued ↦ true | _ ↦ false ]

abbrev pub job_is_running : JobStatus → Bool
job_is_running s = elim s [ JobStatus.running ↦ true | _ ↦ false ]

abbrev pub job_is_dead_lettered : JobStatus → Bool
job_is_dead_lettered s = elim s [ JobStatus.dead_lettered ↦ true | _ ↦ false ]

abbrev pub job_is_cancelled : JobStatus → Bool
job_is_cancelled s = elim s [ JobStatus.cancelled ↦ true | _ ↦ false ]

abbrev pub job_is_succeeded : JobStatus → Bool
job_is_succeeded s = elim s [ JobStatus.succeeded ↦ true | _ ↦ false ]

-- Equality of the texts of two job statuses.
abbrev pub same_status : JobStatus → JobStatus → Bool
same_status a b = elim a [
  | JobStatus.queued ↦ job_is_queued b
  | JobStatus.running ↦ job_is_running b
  | JobStatus.succeeded ↦ job_is_succeeded b
  | JobStatus.dead_lettered ↦ job_is_dead_lettered b
  | JobStatus.cancelled ↦ job_is_cancelled b
]

-- The text of a status, as the column holds it.
unfoldable pub status_text : JobStatus → String
status_text JobStatus.queued = "queued"
status_text JobStatus.running = "running"
status_text JobStatus.succeeded = "succeeded"
status_text JobStatus.dead_lettered = "dead_lettered"
status_text JobStatus.cancelled = "cancelled"

unfoldable pub step_status_text : StepStatus → String
step_status_text StepStatus.pending = "pending"
step_status_text StepStatus.blocked = "blocked"
step_status_text StepStatus.running = "running"
step_status_text StepStatus.succeeded = "succeeded"
step_status_text StepStatus.dead_lettered = "dead_lettered"
step_status_text StepStatus.cancelled = "cancelled"

abbrev pub is_pending : StepStatus → Bool
is_pending s = elim s [ StepStatus.pending ↦ true | _ ↦ false ]

abbrev pub is_blocked : StepStatus → Bool
is_blocked s = elim s [ StepStatus.blocked ↦ true | _ ↦ false ]

abbrev pub is_running : StepStatus → Bool
is_running s = elim s [ StepStatus.running ↦ true | _ ↦ false ]

abbrev pub is_succeeded : StepStatus → Bool
is_succeeded s = elim s [ StepStatus.succeeded ↦ true | _ ↦ false ]

abbrev pub is_dead_lettered : StepStatus → Bool
is_dead_lettered s = elim s [ StepStatus.dead_lettered ↦ true | _ ↦ false ]

abbrev pub is_cancelled : StepStatus → Bool
is_cancelled s = elim s [ StepStatus.cancelled ↦ true | _ ↦ false ]

abbrev pub is_started : Outcome → Bool
is_started o = elim o [ Outcome.started ↦ true | _ ↦ false ]

-- A row of the table `jobs`.
pub record JobRow : Type 0 where
  pub id : ℕ
  pub workflow_name : String
  pub idempotency_key : String
  pub status : JobStatus
  pub input : Value
  pub created_at : ℕ
  pub updated_at : ℕ

-- A row of the table `steps`.
pub record StepRow : Type 0 where
  pub id : ℕ
  pub job_id : ℕ
  pub seq : ℕ
  pub name : String
  pub status : StepStatus
  pub run_after : ℕ
  pub leased_until : Option ℕ
  pub worker_id : Option String
  pub fencing_token : ℕ
  pub attempt_count : ℕ
  pub max_attempts : ℕ
  pub timeout_seconds : ℕ
  pub output : Option Value
  pub last_error : Option String
  pub updated_at : ℕ

-- A row of the table `attempts`.
pub record AttemptRow : Type 0 where
  pub id : ℕ
  pub step_id : ℕ
  pub fencing_token : ℕ
  pub worker_id : String
  pub started_at : ℕ
  pub finished_at : Option ℕ
  pub outcome : Outcome
  pub error : Option String

-- A row of the table `lab_effects`.
pub record EffectRow : Type 0 where
  pub effect_key : String
  pub write_count : ℕ
  pub first_token : ℕ
  pub last_token : ℕ
  pub last_worker_id : String
  pub updated_at : ℕ

-- The four tables, the clock that `now()` reads, the sequence of `attempts.id`, and the number of
-- NOTIFY workflow_wake that were sent.
pub record Db : Type 0 where
  pub now : ℕ
  pub jobs : List JobRow
  pub steps : List StepRow
  pub attempts : List AttemptRow
  pub effects : List EffectRow
  pub next_attempt : ℕ
  pub wakes : ℕ
