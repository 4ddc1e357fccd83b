-- ===== src/Durable.antt =====
-- What no operation loses: jobs and steps stay, fencing tokens only grow, and what has succeeded is
-- never written again.
pub mod Calls
pub mod Completions
use platform_forge.Models.{Db, JobRow, JobStatus, StepRow, is_succeeded}
use platform_forge.Prelude.{
  ℕ, true, arith, In-update, ◌≤◌, inl, sym, List, false, inr, In, ◌∙◌, changed, Bool, update, ◌≡◌,
  subst, Bool-cases, if◌then◌else◌, [], ◌∷◌, insert, In-append_left,
}

-- The row of a step before and after an operation.
pub record SameStep (s t : StepRow) : Type 0 where
  pub id : t.id ≡ s.id
  pub job_id : t.job_id ≡ s.job_id
  pub seq : t.seq ≡ s.seq
  pub name : t.name ≡ s.name
  pub token : s.fencing_token ≤ t.fencing_token
  pub final : is_succeeded s.status ≡ true → t ≡ s

-- The job has succeeded or was cancelled; a dead letter can still be replayed.
abbrev pub is_final : JobStatus → Bool
is_final s = elim s [ JobStatus.succeeded ↦ true | JobStatus.cancelled ↦ true | _ ↦ false ]

-- The row of a job before and after an operation.
pub record SameJob (j k : JobRow) : Type 0 where
  pub id : k.id ≡ j.id
  pub workflow_name : k.workflow_name ≡ j.workflow_name
  pub idempotency_key : k.idempotency_key ≡ j.idempotency_key
  pub input : k.input ≡ j.input
  pub final : is_final j.status ≡ true → k ≡ j

-- Every row of the first table is one of the second, changed at most so.
abbrev pub StepsKept : List StepRow → List StepRow → Type 0
StepsKept xs ys = (s : StepRow) → In s xs → (t : StepRow) × In t ys × SameStep s t

abbrev pub JobsKept : List JobRow → List JobRow → Type 0
JobsKept xs ys = (j : JobRow) → In j xs → (k : JobRow) × In k ys × SameJob j k

-- No job and no step is lost.
pub record Keeps (d d' : Db) : Type 0 where
  pub steps : StepsKept d.steps d'.steps
  pub jobs : JobsKept d.jobs d'.jobs

same_step : (s : StepRow) → SameStep s s
same_step s = ground arith

same_job : (j : JobRow) → SameJob j j
same_job j = ground arith

pub steps_same : (xs ys : List StepRow) → ys ≡ xs → StepsKept xs ys
steps_same xs ys e s m = (s, subst (In s) (sym e) m, same_step s)

pub jobs_same : (xs ys : List JobRow) → ys ≡ xs → JobsKept xs ys
jobs_same xs ys e j m = (j, subst (In j) (sym e) m, same_job j)

pub steps_updated :
    (q : StepRow → Bool) (f : StepRow → StepRow) (xs ys : List StepRow)
    → ys ≡ update q f xs
    → ((s : StepRow) → In s xs → q s ≡ true → SameStep s (f s))
    → StepsKept xs ys
steps_updated q f xs ys e h s m = (
  changed q f s,
  subst (In (changed q f s)) (sym e) (In-update q f m),
  elim (Bool-cases (q s)) [ inl t ↦ rw t (h s m t) | inr n ↦ rw n (same_step s) ],
)

pub jobs_updated :
    (q : JobRow → Bool) (f : JobRow → JobRow) (xs ys : List JobRow)
    → ys ≡ update q f xs
    → ((j : JobRow) → q j ≡ true → SameJob j (f j))
    → JobsKept xs ys
jobs_updated q f xs ys e h j m = (
  changed q f j,
  subst (In (changed q f j)) (sym e) (In-update q f m),
  elim (Bool-cases (q j)) [ inl t ↦ rw t (h j t) | inr n ↦ rw n (same_job j) ],
)

pub steps_grown : (xs ys : List StepRow) → ((s : StepRow) → In s xs → In s ys) → StepsKept xs ys
steps_grown xs ys h s m = (s, h s m, same_step s)

pub jobs_grown : (x : JobRow) (xs ys : List JobRow) → ys ≡ insert x xs → JobsKept xs ys
jobs_grown x xs ys e j m = (j, subst (In j) (sym e) (In-append_left (x ∷ []) m), same_job j)

pub SameStep-trans : (s t u : StepRow) → SameStep s t → SameStep t u → SameStep s u
SameStep-trans s t u a b = record {
  id = b.id ∙ a.id;
  job_id = b.job_id ∙ a.job_id;
  seq = b.seq ∙ a.seq;
  name = b.name ∙ a.name;
  token = omega (arith, a.token, b.token);
  final = λ h. let e = a.final h in b.final (rw e h) ∙ e;
}

pub SameJob-trans : (j k l : JobRow) → SameJob j k → SameJob k l → SameJob j l
SameJob-trans j k l a b = record {
  id = b.id ∙ a.id;
  workflow_name = b.workflow_name ∙ a.workflow_name;
  idempotency_key = b.idempotency_key ∙ a.idempotency_key;
  input = b.input ∙ a.input;
  final = λ h. let e = a.final h in b.final (rw e h) ∙ e;
}

pub Keeps-trans : (d e f : Db) → Keeps d e → Keeps e f → Keeps d f
Keeps-trans d e f a b = record {
  steps = λ s m.
      let (t, mt, st) = a.steps s m in
      let (u, mu, tu) = b.steps t mt in (u, mu, SameStep-trans s t u st tu);
  jobs = λ j m.
      let (k, mk, jk) = a.jobs j m in
      let (l, ml, kl) = b.jobs k mk in (l, ml, SameJob-trans j k l jk kl);
}
