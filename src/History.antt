-- ===== src/History.antt =====
-- Any history of calls, by any number of clients and workers, from the empty tables.
pub mod Durable
pub mod Keys
pub mod Once
use platform_forge.Effects.Heartbeat.{heartbeat-Inv}
use platform_forge.Effects.SubmitLaws.{submit_job-Inv}
use platform_forge.Effects.Failure.{complete_failure-Inv}
use platform_forge.Invariant.{Inv}
use platform_forge.Invariant.RowWise.{same-Inv}
use platform_forge.Effects.Cancel.{cancel_job-Inv, replay_step-Inv}
use platform_forge.Effects.Claim.{
  claim_step-Inv, picked-claimable, claim_answer, claim_none, claim_tables,
}
use platform_forge.Durable.Completions.{submit_job-Keeps, complete_success-Keeps}
use platform_forge.Durable.Calls.{
  claim_step-Keeps, replay_step-Keeps, complete_failure-Keeps, heartbeat-Keeps, cancel_job-Keeps,
}
use platform_forge.Metrics.{Metric}
use platform_forge.Claims.Claim.{claim_step, job_with, picked, lease_row}
use platform_forge.Claims.Claimed.{ClaimedStep}
use platform_forge.Registry.{get, Workflow}
use platform_forge.Effects.Success.{IsIssued, complete_success-Inv}
use platform_forge.Store.{Error, Session}
use platform_forge.Claims.Submit.{submit_job}
use platform_forge.Claims.Cancel.{replay_step, cancel_job}
use platform_forge.Durable.{Keeps, steps_same, jobs_same}
use platform_forge.Models.{Value, Db, StepRow}
use platform_forge.Claims.Heartbeat.{heartbeat}
use platform_forge.Effects.{published, at}
use platform_forge.Claims.Complete.{Failure, complete_success, complete_failure}
use platform_forge.Prelude.{
  ℕ, none, String, ok, ◌<◌, err, In, some, [], ◌∷◌, Bool, List, Result, ◌≡◌, ◌∙◌, Option, arith,
  ◌+◌, length, changed, ◌==◌, refl, there, In-update, inl, here, Option-cases, inr, find-some,
}

-- The claim that an answer hands out.
abbrev pub granted : Result Error (Option ClaimedStep) → List ClaimedStep → List ClaimedStep
granted (err e) cs = cs
granted (ok none) cs = cs
granted (ok (some c)) cs = c ∷ cs

pub kept-IsIssued : (d d' : Db) (c : ClaimedStep) → Keeps d d' → IsIssued d c → IsIssued d' c
kept-IsIssued d d' c k is =
    let (t, mt, same) = k.steps is.row is.row_in in
    record {
      row = t;
      row_in = mt;
      row_id = same.id ∙ is.row_id;
      row_job = same.job_id ∙ is.row_job;
      row_seq = same.seq ∙ is.row_seq;
      row_name = same.name ∙ is.row_name;
      row_token = omega (arith, same.token, is.row_token);
    }

-- The tables after the schema is applied.
abbrev pub empty : ℕ → Db
empty now = record {
  now = now;
  jobs = [];
  steps = [];
  attempts = [];
  effects = [];
  next_attempt = 1;
  wakes = 0;
}

module _ {ℓ} (H : Type ℓ) (d₀ : Db) (cs₀ : List ClaimedStep) where
  -- The tables after any calls, and the claims that were granted, of which any may still be held.
  -- Rows that other transactions lock, ids, clocks and answers of `uniform` are arbitrary.
  pub data Reach : Db → List ClaimedStep → Type ℓ where
    start : Reach d₀ cs₀
    waits :
        {d : Db} {cs : List ClaimedStep} (n : ℕ)
        → Reach d cs
        → Reach (record d { now = d.now + n }) cs
    submits :
        {d : Db} {cs : List ClaimedStep} (uuid4 : ℕ → ℕ) (registry : List (Workflow H))
        (name key : String) (input : Value) (ms : List Metric)
        → ((wf : Workflow H) → get registry name ≡ some wf → 0 < length wf.steps)
        → Reach d cs
        → Reach (published (submit_job uuid4 registry name key input (at d ms))) cs
    cancels :
        {d : Db} {cs : List ClaimedStep} (job_id : ℕ) (ms : List Metric)
        → Reach d cs
        → Reach (published (cancel_job job_id (at d ms))) cs
    replays :
        {d : Db} {cs : List ClaimedStep} (job_id : ℕ) (name : String) (ms : List Metric)
        → Reach d cs
        → Reach (published (replay_step job_id name (at d ms))) cs
    claims :
        {d : Db} {cs : List ClaimedStep} (locked : ℕ → Bool) (worker : String) (ttl : ℕ)
        (ms : List Metric)
        → Reach d cs
        → Reach
            (published (claim_step locked worker ttl (at d ms)))
            (granted (claim_step locked worker ttl (at d ms)).0 cs)
    renews :
        {d : Db} {cs : List ClaimedStep} (step_id : ℕ) (worker : String) (token ttl : ℕ)
        (ms : List Metric)
        → Reach d cs
        → Reach (published (heartbeat step_id worker token ttl (at d ms))) cs
    succeeds :
        {d : Db} {cs : List ClaimedStep} (c : ClaimedStep) (output : Value) (ms : List Metric)
        → In c cs
        → Reach d cs
        → Reach (published (complete_success c output (at d ms))) cs
    fails :
        {d : Db} {cs : List ClaimedStep} (c : ClaimedStep) (f : Failure) (ms : List Metric)
        → In c cs
        → Reach d cs
        → Reach (published (complete_failure c f (at d ms))) cs

module _ (d : Db) (v : Inv d) (locked : ℕ → Bool) (worker : String) (ttl : ℕ)
    (ms : List Metric) where
  abbrev claim : Result Error (Option ClaimedStep) × Session
  claim = claim_step locked worker ttl (at d ms)

  -- Where the invariant holds, a claim that is granted names the row that it leased, and holds that row's token.
  pub claim-IsIssued :
      (c : ClaimedStep)
      → claim.0 ≡ ok (some c)
      → (is : IsIssued (published claim) c) × (is.row.fencing_token ≡ c.fencing_token)
  claim-IsIssued c e = elim (Option-cases (picked locked d)) [
    | inl n ↦ absurd (ground (arith, (claim_none locked d worker ttl ms n).0))
    | inr (p, h) ↦
        let (m, ready, _) = picked-claimable locked d p h in
        let (j, ej) = v.keyed.has_job p m in
        let answer = claim_answer locked d worker ttl ms v p j h ej in
        let (steps, _) = claim_tables locked d worker ttl ms v p j h ej in
        let row : StepRow = lease_row d.now worker ttl p in
        let hit : changed (λ s. s.id == p.id) (lease_row d.now worker ttl) p ≡ row = ground arith in
        (
          record {
            row = row;
            row_in =
                rw steps
                  (rw (← hit) (In-update (λ s. s.id == p.id) (lease_row d.now worker ttl) m));
            row_id = ground (arith, answer, e);
            row_job = ground (arith, answer, e);
            row_seq = ground (arith, answer, e);
            row_name = ground (arith, answer, e);
            row_token = ground (arith, answer, e);
          },
          ground (arith, answer, e),
        )
  ]

  granted-IsIssued :
      (cs : List ClaimedStep) (r : Result Error (Option ClaimedStep))
      → claim.0 ≡ r
      → ((c : ClaimedStep) → In c cs → IsIssued d c)
      → (c : ClaimedStep) → In c (granted r cs)
      → IsIssued (published claim) c
  granted-IsIssued cs (err _) e h c m =
      kept-IsIssued d _ c (claim_step-Keeps d ms v locked worker ttl) (h c m)
  granted-IsIssued cs (ok none) e h c m =
      kept-IsIssued d _ c (claim_step-Keeps d ms v locked worker ttl) (h c m)
  granted-IsIssued cs (ok (some k)) e h c here = (claim-IsIssued c e).0
  granted-IsIssued cs (ok (some k)) e h c (there m) =
      kept-IsIssued d _ c (claim_step-Keeps d ms v locked worker ttl) (h c m)

-- The invariant of the tables, with every claim that was ever granted.
pub record IsSound (d : Db) (cs : List ClaimedStep) : Type 0 where
  pub inv : Inv d
  pub issued : (c : ClaimedStep) → In c cs → IsIssued d c

kept-IsSound :
    (d d' : Db) (cs : List ClaimedStep) → IsSound d cs → Keeps d d' → Inv d' → IsSound d' cs
kept-IsSound d d' cs s k v = record {
  inv = v;
  issued = λ c m. kept-IsIssued d d' c k (s.issued c m);
}

empty-Inv : (now : ℕ) → Inv (empty now)
unfolding job_with
empty-Inv now = record {
  keyed = record {
    job_id = λ j k m n e. elim m [ ];
    job_key = λ j k m n e e'. elim m [ ];
    step_id = λ s t m n e. elim m [ ];
    step_seq = λ s t m n e e'. elim m [ ];
    has_job = λ s m. elim m [ ];
    has_previous = λ s n m p lt. elim m [ ];
  };
  leased = λ s m. elim m [ ];
  ordered = λ s t m n e lt h. elim m [ ];
  coherent = λ j s m e. elim m [ ];
  progressing = λ id j e a. absurd (elim (find-some (λ k. k.id == id) j [] e).0 [ ]);
}

-- The tables after the schema is applied are sound.
pub empty-IsSound : (now : ℕ) → IsSound (empty now) []
empty-IsSound now = record { inv = empty-Inv now; issued = λ c m. elim m [ ] }

-- In every state that calls reach from sound tables the invariant holds: keys are unique, a step is leased exactly while it
-- runs, the steps of a job run in order, a job and its steps agree, and a job that is not over has a
-- step that waits or runs. Every claim ever granted still names a step of the tables.
pub Reach-IsSound {ℓ} :
    {H : Type ℓ} {d₀ : Db} {cs₀ : List ClaimedStep} {d : Db} {cs : List ClaimedStep}
    → IsSound d₀ cs₀
    → Reach H d₀ cs₀ d cs
    → IsSound d cs
Reach-IsSound s₀ start = s₀
Reach-IsSound s₀ (waits {d = d} {cs = cs} n r) =
    let s = Reach-IsSound s₀ r in
    kept-IsSound d _ cs s (record { steps = steps_same _ _ refl; jobs = jobs_same _ _ refl })
      (same-Inv d _ refl refl s.inv)
Reach-IsSound s₀ (submits {d = d} {cs = cs} uuid4 registry name key input ms proper r) =
    let s = Reach-IsSound s₀ r in
    kept-IsSound d _ cs s (submit_job-Keeps uuid4 registry name key input d ms s.inv)
      (submit_job-Inv uuid4 registry name key input d ms s.inv proper)
Reach-IsSound s₀ (cancels {d = d} {cs = cs} job_id ms r) =
    let s = Reach-IsSound s₀ r in
    kept-IsSound d _ cs s (cancel_job-Keeps d ms s.inv job_id) (cancel_job-Inv job_id d ms s.inv)
Reach-IsSound s₀ (replays {d = d} {cs = cs} job_id name ms r) =
    let s = Reach-IsSound s₀ r in
    kept-IsSound d _ cs s (replay_step-Keeps d ms s.inv job_id name)
      (replay_step-Inv job_id name d ms s.inv)
Reach-IsSound s₀ (claims {d = d} {cs = cs} locked worker ttl ms r) =
    let s = Reach-IsSound s₀ r in
    record {
      inv = claim_step-Inv locked d worker ttl ms s.inv;
      issued = granted-IsIssued d s.inv locked worker ttl ms cs _ refl s.issued;
    }
Reach-IsSound s₀ (renews {d = d} {cs = cs} step_id worker token ttl ms r) =
    let s = Reach-IsSound s₀ r in
    kept-IsSound d _ cs s (heartbeat-Keeps d ms s.inv step_id worker token ttl)
      (heartbeat-Inv step_id worker token ttl d ms s.inv)
Reach-IsSound s₀ (succeeds {d = d} {cs = cs} c output ms m r) =
    let s = Reach-IsSound s₀ r in
    kept-IsSound d _ cs s (complete_success-Keeps d ms s.inv c output (s.issued c m))
      (complete_success-Inv c output d ms s.inv (s.issued c m))
Reach-IsSound s₀ (fails {d = d} {cs = cs} c f ms m r) =
    let s = Reach-IsSound s₀ r in
    kept-IsSound d _ cs s (complete_failure-Keeps d ms s.inv c f)
      (complete_failure-Inv c f d ms s.inv (s.issued c m))
