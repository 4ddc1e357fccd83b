-- ===== src/Lifecycle.antt =====
-- The state machines of a job and of a step that src/ARCHITECTURE.md draws, with the moves of
-- src/workflow_engine/claims.py that it leaves out, and what it means that a call follows them.
pub mod Rows
pub mod Calls
pub mod Reports
pub mod Refinement
use platform_forge.Claims.Claimed.{ClaimedStep}
use platform_forge.Store.{Error}
use platform_forge.Models.{JobStatus, StepStatus, JobRow, StepRow, Db}
use platform_forge.Prelude.{
  ℕ, ◌+◌, ◌≡◌, ◌⊎◌, List, In, Bool, true, String, Option, Result, ok, none, some, err,
}

-- A call of an operation: a claim by its answer, a report by the claim that is reported, a cancel and a
-- replay by their arguments.
pub data Call : Type 0 where
  submitting : Call
  claiming : Option ClaimedStep → Call
  beating : Call
  succeeding : ClaimedStep → Call
  failing : ClaimedStep → Call
  cancelling : ℕ → Call
  replaying : ℕ → String → Call

-- The claim that an answer hands out.
abbrev pub offered : Result Error (Option ClaimedStep) → Option ClaimedStep
offered (ok o) = o
offered (err _) = none

-- A move of a step in a call, with its fencing token. Not in the drawing are cancels_pending,
-- cancels_blocked and replays.
pub data StepMove : Call → StepStatus → ℕ → StepStatus → ℕ → Type 0 where
  unblocks :
      {c : ClaimedStep} {n : ℕ} → StepMove (succeeding c) StepStatus.blocked n StepStatus.pending n
  claims :
      {o : Option ClaimedStep} {n : ℕ}
      → StepMove (claiming o) StepStatus.pending n StepStatus.running (n + 1)
  steals :
      {o : Option ClaimedStep} {n : ℕ}
      → StepMove (claiming o) StepStatus.running n StepStatus.running (n + 1)
  completes :
      {c : ClaimedStep} {n : ℕ}
      → StepMove (succeeding c) StepStatus.running n StepStatus.succeeded n
  retries :
      {c : ClaimedStep} {n : ℕ} → StepMove (failing c) StepStatus.running n StepStatus.pending n
  dies :
      {c : ClaimedStep} {n : ℕ}
      → StepMove (failing c) StepStatus.running n StepStatus.dead_lettered n
  cancels_running :
      {id n : ℕ} → StepMove (cancelling id) StepStatus.running n StepStatus.cancelled n
  cancels_pending :
      {id n : ℕ} → StepMove (cancelling id) StepStatus.pending n StepStatus.cancelled n
  cancels_blocked :
      {id n : ℕ} → StepMove (cancelling id) StepStatus.blocked n StepStatus.cancelled n
  replays :
      {id n : ℕ} {name : String}
      → StepMove (replaying id name) StepStatus.dead_lettered n StepStatus.pending n

-- A move of a job in a call. Not in the drawing are cancels_queued and resumes.
pub data JobMove : Call → JobStatus → JobStatus → Type 0 where
  starts : {o : Option ClaimedStep} → JobMove (claiming o) JobStatus.queued JobStatus.running
  finishes : {c : ClaimedStep} → JobMove (succeeding c) JobStatus.running JobStatus.succeeded
  dies : {c : ClaimedStep} → JobMove (failing c) JobStatus.running JobStatus.dead_lettered
  cancels_queued : {id : ℕ} → JobMove (cancelling id) JobStatus.queued JobStatus.cancelled
  cancels_running : {id : ℕ} → JobMove (cancelling id) JobStatus.running JobStatus.cancelled
  resumes :
      {id : ℕ} {name : String}
      → JobMove (replaying id name) JobStatus.dead_lettered JobStatus.running

-- The call may move this step: a claim the one that it hands out, a success the one that is reported and
-- the next of its job, a failure the one that is reported, a cancel those of the job, a replay those of
-- the job that have the name.
abbrev pub Concerns : Call → StepRow → Type 0
Concerns submitting s = ⊥
Concerns (claiming none) s = ⊥
Concerns (claiming (some c)) s = s.id ≡ c.step_id
Concerns beating s = ⊥
Concerns (succeeding c) s = (s.id ≡ c.step_id) ⊎ ((s.job_id ≡ c.job_id) × (s.seq ≡ c.seq + 1))
Concerns (failing c) s = s.id ≡ c.step_id
Concerns (cancelling id) s = s.job_id ≡ id
Concerns (replaying id name) s = (s.job_id ≡ id) × (s.name ≡ name)

-- The call may move this job.
abbrev pub ConcernsJob : Call → JobRow → Type 0
ConcernsJob submitting j = ⊥
ConcernsJob (claiming none) j = ⊥
ConcernsJob (claiming (some c)) j = j.id ≡ c.job_id
ConcernsJob beating j = ⊥
ConcernsJob (succeeding c) j = j.id ≡ c.job_id
ConcernsJob (failing c) j = j.id ≡ c.job_id
ConcernsJob (cancelling id) j = j.id ≡ id
ConcernsJob (replaying id name) j = j.id ≡ id

-- The row of a step before and after: it stays in its state, or the call concerns it and it makes one
-- move of that call.
pub record StepTurn (call : Call) (s t : StepRow) : Type 0 where
  pub id : t.id ≡ s.id
  pub job_id : t.job_id ≡ s.job_id
  pub turn :
      ((t.status ≡ s.status) × (t.fencing_token ≡ s.fencing_token))
      ⊎ (Concerns call s × StepMove call s.status s.fencing_token t.status t.fencing_token)

pub record JobTurn (call : Call) (j k : JobRow) : Type 0 where
  pub id : k.id ≡ j.id
  pub turn : (k.status ≡ j.status) ⊎ (ConcernsJob call j × JobMove call j.status k.status)

-- Only a submit makes a step; it begins pending, if it is the first, or else blocked, under the token 0.
pub record IsNewStep (call : Call) (s : StepRow) : Type 0 where
  pub submitted : call ≡ submitting
  pub token : s.fencing_token ≡ 0
  pub status : ((s.seq ≡ 1) × (s.status ≡ StepStatus.pending)) ⊎ (s.status ≡ StepStatus.blocked)

abbrev pub IsNewJob : Call → JobRow → Type 0
IsNewJob call j = (call ≡ submitting) × (j.status ≡ JobStatus.queued)

-- Every old row is there after its turn, and every row that is there is an old one after its turn or a
-- new one.
pub record Follows {ℓ} {A : Type ℓ} (T : A → A → Type 0) (New : A → Type 0) (xs ys : List A)
    : Type ℓ where
  pub kept : (x : A) → In x xs → (y : A) × In y ys × T x y
  pub came : (y : A) → In y ys → ((x : A) × In x xs × T x y) ⊎ New y

-- The tables of one state follow those of another by at most one move of the call for each row.
pub record Refines (call : Call) (d d' : Db) : Type 0 where
  pub steps : Follows (StepTurn call) (IsNewStep call) d.steps d'.steps
  pub jobs : Follows (JobTurn call) (IsNewJob call) d.jobs d'.jobs
