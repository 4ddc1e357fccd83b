-- ===== src/Invariant.antt =====
-- The invariant of the tables `jobs` and `steps`, and the row-wise changes that keep it.
pub mod RowWise
pub mod Filled
pub mod Submit
pub mod Cancel
pub mod Fail
pub mod Succeed
pub mod Claim
use platform_forge.Prelude.{ℕ, ◌<◌, ◌≡◌, ◌≢◌, ◌||◌, not, Bool, true, none, some, In}
use platform_forge.Models.{
  JobStatus, StepStatus, JobRow, StepRow, Db, is_active, is_blocked, is_cancelled, is_running,
  is_pending, is_succeeded, is_dead_lettered,
}
use platform_forge.Claims.Claim.{job_with}

-- A lease, with its worker, is held exactly while the step runs.
abbrev pub IsLeased : StepRow → Type 0
IsLeased s = elim s.status [
  | StepStatus.running ↦ (s.leased_until ≢ none) × (s.worker_id ≢ none)
  | _ ↦ (s.leased_until ≡ none) × (s.worker_id ≡ none)
]

-- The step has been unblocked at some time.
abbrev pub is_reached : StepStatus → Bool
is_reached s = not (is_blocked s || is_cancelled s)

-- The step waits to be run, or runs.
abbrev pub is_live : StepStatus → Bool
is_live s = is_pending s || is_running s

-- The states of a step that go with the state of its job.
abbrev pub fits : JobStatus → StepStatus → Bool
fits j s = elim j [
  | JobStatus.queued ↦ is_pending s || is_blocked s
  | JobStatus.running ↦ is_live s || (is_blocked s || is_succeeded s)
  | JobStatus.succeeded ↦ is_succeeded s
  | JobStatus.dead_lettered ↦ is_dead_lettered s || (is_blocked s || is_succeeded s)
  | JobStatus.cancelled ↦ is_cancelled s || is_succeeded s
]

-- The row of a job and one of its steps.
abbrev pub Has : Db → JobRow → StepRow → Type 0
Has d j s = In s d.steps × (job_with s.job_id d ≡ some j)

module _ (d : Db) where
  pub record IsKeyed : Type 0 where
    -- the primary key of the jobs
    pub job_id : (j k : JobRow) → In j d.jobs → In k d.jobs → j.id ≡ k.id → j ≡ k
    -- UNIQUE (workflow_name, idempotency_key)
    pub job_key :
        (j k : JobRow)
        → In j d.jobs
        → In k d.jobs
        → j.workflow_name ≡ k.workflow_name
        → j.idempotency_key ≡ k.idempotency_key
        → j ≡ k
    -- the primary key of the steps
    pub step_id : (s t : StepRow) → In s d.steps → In t d.steps → s.id ≡ t.id → s ≡ t
    -- UNIQUE (job_id, seq)
    pub step_seq :
        (s t : StepRow) → In s d.steps → In t d.steps → s.job_id ≡ t.job_id → s.seq ≡ t.seq → s ≡ t
    -- the foreign key from a step to its job
    pub has_job : (s : StepRow) → In s d.steps → (j : JobRow) × (job_with s.job_id d ≡ some j)
    -- the steps of a job are numbered with no gap
    pub has_previous :
        (s : StepRow) (n : ℕ)
        → In s d.steps
        → 0 < n
        → n < s.seq
        → (t : StepRow) × In t d.steps × (t.job_id ≡ s.job_id) × (t.seq ≡ n)

  -- A step is unblocked only after every earlier step of its job has succeeded.
  abbrev pub IsOrdered : Type 0
  IsOrdered =
      (s t : StepRow)
      → In s d.steps
      → In t d.steps
      → s.job_id ≡ t.job_id
      → s.seq < t.seq
      → is_reached t.status ≡ true
      → s.status ≡ StepStatus.succeeded

  -- The states of a job and of its steps agree.
  abbrev pub IsCoherent : Type 0
  IsCoherent =
      (j : JobRow) (s : StepRow)
      → In s d.steps
      → job_with s.job_id d ≡ some j
      → fits j.status s.status ≡ true

  -- A job that is not over has a step that waits or runs.
  abbrev pub IsProgressing : Type 0
  IsProgressing =
      (id : ℕ) (j : JobRow)
      → job_with id d ≡ some j
      → is_active j.status ≡ true
      → (s : StepRow) × In s d.steps × (s.job_id ≡ id) × (is_live s.status ≡ true)

module _ (d : Db) where
  pub record Inv : Type 0 where
    pub keyed : IsKeyed d
    pub leased : (s : StepRow) → In s d.steps → IsLeased s
    pub ordered : IsOrdered d
    pub coherent : IsCoherent d
    pub progressing : IsProgressing d
