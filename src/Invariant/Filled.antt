-- ===== src/Invariant/Filled.antt =====
-- The table `steps` while a job's steps are inserted.
use platform_forge.Models.{StepStatus, StepRow}
use platform_forge.Prelude.{ℕ, List, none, ◌==◌, ◌<◌, if◌then◌else◌, ◌≡◌, In, ◌⊎◌}

-- A step as `submit_job` inserts it.
pub record IsNew (id n : ℕ) (s : StepRow) : Type 0 where
  pub job_id : s.job_id ≡ id
  pub below : s.seq < n
  pub positive : 0 < s.seq
  pub status : s.status ≡ (if s.seq == 1 then StepStatus.pending else StepStatus.blocked)
  pub unleased : (s.leased_until ≡ none) × (s.worker_id ≡ none)
  pub token : s.fencing_token ≡ 0

-- The table `steps` once the steps below `n` of the job are inserted beside those of `base`.
pub record IsFilled (base : List StepRow) (id n : ℕ) (steps : List StepRow) : Type 0 where
  pub cases : (s : StepRow) → In s steps → In s base ⊎ IsNew id n s
  pub kept : (s : StepRow) → In s base → In s steps
  pub by_id : (s t : StepRow) → In s steps → In t steps → s.id ≡ t.id → s ≡ t
  pub by_seq :
      (s t : StepRow) → In s steps → In t steps → s.job_id ≡ t.job_id → s.seq ≡ t.seq → s ≡ t
  pub numbered :
      (m : ℕ) → 0 < m → m < n → (t : StepRow) × In t steps × (t.job_id ≡ id) × (t.seq ≡ m)
