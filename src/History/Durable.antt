-- ===== src/History/Durable.antt =====
-- What a history never loses.
use platform_forge.Invariant.Claim.{job_with-some}
use platform_forge.Effects.Claim.{claim_none, claim_answer, ready_active, picked-claimable}
use platform_forge.Claims.Claimed.{ClaimedStep}
use platform_forge.Durable.Completions.{submit_job-Keeps, complete_success-Keeps}
use platform_forge.Claims.Claim.{claim_step, picked}
use platform_forge.Effects.{published, at}
use platform_forge.Metrics.{Metric}
use platform_forge.Durable.{Keeps-trans, jobs_same, steps_same, Keeps, SameJob}
use platform_forge.Claims.Submit.{char_length, submit_existing, submit_job, insert_job, has_key}
use platform_forge.Models.{Value, JobRow, Db, JobStatus}
use platform_forge.Registry.{Workflow, get}
use platform_forge.Durable.Calls.{
  claim_step-Keeps, cancel_job-Keeps, heartbeat-Keeps, complete_failure-Keeps, replay_step-Keeps,
}
use platform_forge.History.{
  start, waits, submits, cancels, replays, claims, renews, succeeds, fails, IsSound, Reach-IsSound,
  Reach,
}
use platform_forge.Prelude.{
  ℕ, false, Bool, ok, ◌≢◌, List, ◌≡◌, ◌≤◌, String, some, refl, none, In, ap, arith, true,
  Bool-cases, inl, inr, any-false, ◌∙◌, find, find-some, Option-cases, any, str_eq_iff, find-In,
}

same_tables : (d : Db) → Keeps d d
same_tables d = record { steps = steps_same _ _ refl; jobs = jobs_same _ _ refl }

-- No history of calls from sound tables loses a job or a step, lowers a fencing token, or writes to a step that has succeeded or to
-- a job that has succeeded or was cancelled: each row of the first tables has one in the last, with
-- the same keys and input.
pub Reach-Keeps {ℓ} :
    {H : Type ℓ} {d₀ : Db} {cs₀ : List ClaimedStep} {d : Db} {cs : List ClaimedStep}
    → IsSound d₀ cs₀
    → Reach H d₀ cs₀ d cs
    → Keeps d₀ d
Reach-Keeps {d₀ = d₀} s₀ start = same_tables d₀
Reach-Keeps {d₀ = d₀} s₀ (waits {d = d} n r) =
    Keeps-trans d₀ d _ (Reach-Keeps s₀ r)
      (record { steps = steps_same _ _ refl; jobs = jobs_same _ _ refl })
Reach-Keeps {d₀ = d₀} s₀ (submits {d = d} uuid4 registry name key input ms proper r) =
    Keeps-trans d₀ d _ (Reach-Keeps s₀ r)
      (submit_job-Keeps uuid4 registry name key input d ms (Reach-IsSound s₀ r).inv)
Reach-Keeps {d₀ = d₀} s₀ (cancels {d = d} job_id ms r) =
    Keeps-trans d₀ d _ (Reach-Keeps s₀ r) (cancel_job-Keeps d ms (Reach-IsSound s₀ r).inv job_id)
Reach-Keeps {d₀ = d₀} s₀ (replays {d = d} job_id name ms r) =
    Keeps-trans d₀ d _ (Reach-Keeps s₀ r)
      (replay_step-Keeps d ms (Reach-IsSound s₀ r).inv job_id name)
Reach-Keeps {d₀ = d₀} s₀ (claims {d = d} locked worker ttl ms r) =
    Keeps-trans d₀ d _ (Reach-Keeps s₀ r)
      (claim_step-Keeps d ms (Reach-IsSound s₀ r).inv locked worker ttl)
Reach-Keeps {d₀ = d₀} s₀ (renews {d = d} step_id worker token ttl ms r) =
    Keeps-trans d₀ d _ (Reach-Keeps s₀ r)
      (heartbeat-Keeps d ms (Reach-IsSound s₀ r).inv step_id worker token ttl)
Reach-Keeps {d₀ = d₀} s₀ (succeeds {d = d} c output ms m r) =
    let s = Reach-IsSound s₀ r in
    Keeps-trans d₀ d _ (Reach-Keeps s₀ r)
      (complete_success-Keeps d ms s.inv c output (s.issued c m))
Reach-Keeps {d₀ = d₀} s₀ (fails {d = d} c f ms m r) =
    Keeps-trans d₀ d _ (Reach-Keeps s₀ r) (complete_failure-Keeps d ms (Reach-IsSound s₀ r).inv c f)

module _ {ℓ} {H : Type ℓ} {d₀ : Db} {cs₀ : List ClaimedStep} {d : Db} {cs : List ClaimedStep}
    (s₀ : IsSound d₀ cs₀) (r : Reach H d₀ cs₀ d cs) (j : JobRow) (m : In j d₀.jobs) where
  -- The row of the job now.
  kept_job : (k : JobRow) × In k d.jobs × SameJob j k
  kept_job = (Reach-Keeps s₀ r).jobs j m

  key_found :
      ((l : JobRow) × (find (has_key j.workflow_name j.idempotency_key) d.jobs ≡ some l)
        × (l.id ≡ j.id))
      × (any (has_key j.workflow_name j.idempotency_key) d.jobs ≡ true)
  key_found =
      let (k, mk, same) = kept_job in
      let q : JobRow → Bool = has_key j.workflow_name j.idempotency_key in
      let hit : q k ≡ true = ground (
        arith,
        same,
        str_eq_iff k.workflow_name j.workflow_name,
        str_eq_iff k.idempotency_key j.idempotency_key,
      ) in
      (
        elim (Option-cases (find q d.jobs)) [
          | inl n ↦ absurd (find-In q mk hit n)
          | inr (l, e) ↦
              let (ml, hl) = find-some q l d.jobs e in
              let one : l ≡ k =
                (Reach-IsSound s₀ r).inv.keyed.job_key l k ml mk
                  (ground (arith, same, str_eq_iff l.workflow_name j.workflow_name))
                  (ground (arith, same, str_eq_iff l.idempotency_key j.idempotency_key)) in
              (l, e, ap (λ (x : JobRow). x.id) one ∙ same.id)
        ],
        elim (Bool-cases (any q d.jobs)) [
          | inl t ↦ t
          | inr n ↦ absurd (ground (arith, any-false q mk n))
        ],
      )

  -- A submit of a registered workflow under a key that a job has, of 1 to 200 characters, answers with
  -- that job after any history of calls, and publishes nothing.
  pub resubmit_same_job :
      (uuid4 : ℕ → ℕ) (registry : List (Workflow H)) (input : Value) (ms : List Metric)
      → get registry j.workflow_name ≢ none
      → 1 ≤ char_length j.idempotency_key
      → char_length j.idempotency_key ≤ 200
      → let t = submit_job uuid4 registry j.workflow_name j.idempotency_key input (at d ms) in
        (t.0 ≡ ok (j.id, false)) × (published t ≡ d)
  unfolding submit_job insert_job submit_existing
  resubmit_same_job uuid4 registry input ms known low high =
      let (found, taken) = key_found in
      elim (Option-cases (get registry j.workflow_name)) [
        | inl n ↦ absurd (known n)
        | inr (wf, w) ↦ ground (arith, found, taken)
      ]

  -- If a job of sound tables is cancelled, no claim after any history of calls hands out a step of it.
  pub cancelled_never_claimed :
      j.status ≡ JobStatus.cancelled
      → (locked : ℕ → Bool) (worker : String) (ttl : ℕ) (ms : List Metric) (c : ClaimedStep)
      → (claim_step locked worker ttl (at d ms)).0 ≡ ok (some c)
      → c.job_id ≢ j.id
  cancelled_never_claimed over locked worker ttl ms c e same =
      let v = (Reach-IsSound s₀ r).inv in
      let (k, mk, kept) = kept_job in
      elim (Option-cases (picked locked d)) [
        | inl n ↦ absurd (ground (arith, (claim_none locked d worker ttl ms n).0))
        | inr (p, h) ↦
            let (mp, ready, _) = picked-claimable locked d p h in
            let (q, eq) = v.keyed.has_job p mp in
            let (mq, hq) = job_with-some p.job_id d q eq in
            let one : q ≡ k =
              v.keyed.job_id q k mq mk
                (ground (arith, claim_answer locked d worker ttl ms v p q h eq, e, kept.id)) in
            absurd
              (ground (arith, ready_active locked d worker ttl ms v p q ready eq, one, kept.final))
      ]
