-- ===== src/Lifecycle/Rows.antt =====
-- How the updates of the tables move their rows along the state machines.
use platform_forge.Models.{
  JobStatus, Db, is_running, StepRow, is_pending, is_active, StepStatus, is_blocked, JobRow,
  job_is_running, is_dead_lettered, job_is_dead_lettered, job_is_queued,
}
use platform_forge.Lifecycle.{
  Call, Concerns, claiming, succeeding, failing, cancelling, replaying, StepMove, JobMove, StepTurn,
  JobTurn, IsNewStep, IsNewJob, Follows, Refines,
}
use platform_forge.Claims.Claimed.{ClaimedStep}
use platform_forge.Prelude.{
  ℕ, ◌+◌, ◌≡◌, List, In, Bool, true, inl, update, ◌∙◌, arith, In-map, map, In-map-cases, sym,
  changed, update-eq-map, subst, ◌||◌, Bool-cases, refl, inr, ap, String, Option,
}

module _ {ℓ} {A : Type ℓ} (T : A → A → Type 0) (New : A → Type 0) where
  mapped-Follows :
      (f : A → A) (xs ys : List A)
      → ys ≡ map f xs
      → ((x : A) → In x xs → T x (f x))
      → Follows T New xs ys
  mapped-Follows f xs ys e h = record {
    kept = λ x m. (f x, subst (In (f x)) (sym e) (In-map f m), h x m);
    came = λ y m.
        let (x, mx, same) = In-map-cases f xs (subst (In y) e m) in
        inl (x, mx, subst (T x) (sym same) (h x mx));
  }

  pub same-Follows : ((x : A) → T x x) → (xs ys : List A) → ys ≡ xs → Follows T New xs ys
  same-Follows r xs ys e = record {
    kept = λ x m. (x, subst (In x) (sym e) m, r x);
    came = λ y m. inl (y, subst (In y) e m, r y);
  }

  pub updated-Follows :
      ((x : A) → T x x)
      → (p : A → Bool) (f : A → A) (xs ys : List A) → ys ≡ update p f xs
      → ((x : A) → In x xs → p x ≡ true → T x (f x))
      → Follows T New xs ys
  updated-Follows r p f xs ys e h =
      mapped-Follows (changed p f) xs ys (e ∙ update-eq-map p f xs)
        λ x m. elim (Bool-cases (p x)) [ inl t ↦ rw t (h x m t) | inr n ↦ rw n (r x) ]

pub step_stays : {call : Call} (s : StepRow) → StepTurn call s s
step_stays s = record { id = refl; job_id = refl; turn = inl (refl, refl) }

pub job_stays : {call : Call} (j : JobRow) → JobTurn call j j
job_stays j = record { id = refl; turn = inl refl }

abbrev pub StepsFollow : Call → List StepRow → List StepRow → Type 0
StepsFollow call = Follows (StepTurn call) (IsNewStep call)

abbrev pub JobsFollow : Call → List JobRow → List JobRow → Type 0
JobsFollow call = Follows (JobTurn call) (IsNewJob call)

pub unmoved_steps : {call : Call} (xs ys : List StepRow) → ys ≡ xs → StepsFollow call xs ys
unmoved_steps {call = call} = same-Follows (StepTurn call) (IsNewStep call) step_stays

pub unmoved_jobs : {call : Call} (xs ys : List JobRow) → ys ≡ xs → JobsFollow call xs ys
unmoved_jobs {call = call} = same-Follows (JobTurn call) (IsNewJob call) job_stays

pub moved_steps :
    {call : Call} (p : StepRow → Bool) (f : StepRow → StepRow) (xs ys : List StepRow)
    → ys ≡ update p f xs
    → ((s : StepRow) → In s xs → p s ≡ true → StepTurn call s (f s))
    → StepsFollow call xs ys
moved_steps {call = call} = updated-Follows (StepTurn call) (IsNewStep call) step_stays

pub moved_jobs :
    {call : Call} (p : JobRow → Bool) (f : JobRow → JobRow) (xs ys : List JobRow)
    → ys ≡ update p f xs
    → ((j : JobRow) → In j xs → p j ≡ true → JobTurn call j (f j))
    → JobsFollow call xs ys
moved_jobs {call = call} = updated-Follows (JobTurn call) (IsNewJob call) job_stays

pub same-Refines : {call : Call} (d d' : Db) → d' ≡ d → Refines call d d'
same-Refines d d' e = record {
  steps = unmoved_steps _ _ (ap (λ (x : Db). x.steps) e);
  jobs = unmoved_jobs _ _ (ap (λ (x : Db). x.jobs) e);
}

-- The moves of a step from what the WHERE clauses ask of its status.
pub leases :
    {o : Option ClaimedStep} (x : StepStatus) (n : ℕ)
    → (is_pending x || is_running x) ≡ true
    → StepMove (claiming o) x n StepStatus.running (n + 1)
leases StepStatus.pending n h = StepMove.claims
leases StepStatus.running n h = StepMove.steals
leases StepStatus.blocked n h = absurd (ground (arith, h))
leases StepStatus.succeeded n h = absurd (ground (arith, h))
leases StepStatus.dead_lettered n h = absurd (ground (arith, h))
leases StepStatus.cancelled n h = absurd (ground (arith, h))

pub cancels_live :
    {id : ℕ} (x : StepStatus) (n : ℕ)
    → (is_pending x || is_blocked x || is_running x) ≡ true
    → StepMove (cancelling id) x n StepStatus.cancelled n
cancels_live StepStatus.pending n h = StepMove.cancels_pending
cancels_live StepStatus.running n h = StepMove.cancels_running
cancels_live StepStatus.blocked n h = StepMove.cancels_blocked
cancels_live StepStatus.succeeded n h = absurd (ground (arith, h))
cancels_live StepStatus.dead_lettered n h = absurd (ground (arith, h))
cancels_live StepStatus.cancelled n h = absurd (ground (arith, h))

pub cancels_active :
    {id : ℕ} (x : JobStatus) → is_active x ≡ true → JobMove (cancelling id) x JobStatus.cancelled
cancels_active JobStatus.queued h = JobMove.cancels_queued
cancels_active JobStatus.running h = JobMove.cancels_running
cancels_active JobStatus.succeeded h = absurd (ground (arith, h))
cancels_active JobStatus.dead_lettered h = absurd (ground (arith, h))
cancels_active JobStatus.cancelled h = absurd (ground (arith, h))

module _ (s t : StepRow) where
  -- A step that runs ends in a state, under its token.
  pub ends :
      {call : Call} {x : StepStatus}
      → Concerns call s
      → StepMove call StepStatus.running s.fencing_token x s.fencing_token
      → t.id ≡ s.id
      → t.job_id ≡ s.job_id
      → is_running s.status ≡ true
      → t.status ≡ x
      → t.fencing_token ≡ s.fencing_token
      → StepTurn call s t
  ends on move i j h e k =
      let running : s.status ≡ StepStatus.running = ground arith in
      record { id = i; job_id = j; turn = inr (on, rw (running, e, k) move) }

pub unblocks_blocked :
    {c : ClaimedStep} (x : StepStatus) (n : ℕ)
    → is_blocked x ≡ true
    → StepMove (succeeding c) x n StepStatus.pending n
unblocks_blocked x n h = let e : x ≡ StepStatus.blocked = ground arith in rw e StepMove.unblocks

pub replays_dead :
    {id : ℕ} {name : String} (x : StepStatus) (n : ℕ)
    → is_dead_lettered x ≡ true
    → StepMove (replaying id name) x n StepStatus.pending n
replays_dead x n h = let e : x ≡ StepStatus.dead_lettered = ground arith in rw e StepMove.replays

pub starts_queued :
    {o : Option ClaimedStep} (x : JobStatus)
    → job_is_queued x ≡ true
    → JobMove (claiming o) x JobStatus.running
starts_queued x h = let e : x ≡ JobStatus.queued = ground arith in rw e JobMove.starts

pub finishes_running :
    {c : ClaimedStep} (x : JobStatus)
    → job_is_running x ≡ true
    → JobMove (succeeding c) x JobStatus.succeeded
finishes_running x h = let e : x ≡ JobStatus.running = ground arith in rw e JobMove.finishes

pub dies_running :
    {c : ClaimedStep} (x : JobStatus)
    → job_is_running x ≡ true
    → JobMove (failing c) x JobStatus.dead_lettered
dies_running x h = let e : x ≡ JobStatus.running = ground arith in rw e JobMove.dies

pub resumes_dead :
    {id : ℕ} {name : String} (x : JobStatus)
    → job_is_dead_lettered x ≡ true
    → JobMove (replaying id name) x JobStatus.running
resumes_dead x h = let e : x ≡ JobStatus.dead_lettered = ground arith in rw e JobMove.resumes

pub mapped_steps :
    {call : Call} (f : StepRow → StepRow) (xs ys : List StepRow)
    → ys ≡ map f xs
    → ((s : StepRow) → In s xs → StepTurn call s (f s))
    → Follows (StepTurn call) (IsNewStep call) xs ys
mapped_steps {call = call} = mapped-Follows (StepTurn call) (IsNewStep call)
