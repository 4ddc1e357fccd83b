-- ===== src/History/Keys.antt =====
-- The key under which the handlers of a step write their effects, along any history.
use platform_forge.Metrics.{Metric}
use platform_forge.Effects.{at, published}
use platform_forge.Store.{Session, Error}
use platform_forge.Claims.Claim.{claim_step, picked}
use platform_forge.Invariant.Claim.{job_with-some}
use platform_forge.Effects.Claim.{picked-claimable, claim_answer, claim_none}
use platform_forge.Invariant.{Inv}
use platform_forge.Worker.Context.{effect_key, context_of}
use platform_forge.History.{
  start, waits, submits, cancels, replays, claims, renews, succeeds, fails, IsSound, Reach-IsSound,
  Reach, granted,
}
use platform_forge.Durable.{Keeps, steps_same, jobs_same}
use platform_forge.Durable.Completions.{submit_job-Keeps, complete_success-Keeps}
use platform_forge.Durable.Calls.{
  claim_step-Keeps, cancel_job-Keeps, heartbeat-Keeps, complete_failure-Keeps, replay_step-Keeps,
}
use platform_forge.Claims.Claimed.{ClaimedStep}
use platform_forge.Models.{Db, JobRow}
use platform_forge.Prelude.{
  ℕ, In, ◌≡◌, List, here, there, String, ◌∙◌, Option, none, err, Option-cases, refl, some, Bool,
  Result, arith, inl, ok, inr, [],
}

-- The claim carries the names of its job.
pub record IsNamed (d : Db) (c : ClaimedStep) : Type 0 where
  pub job : JobRow
  pub job_in : In job d.jobs
  pub id : job.id ≡ c.job_id
  pub workflow : job.workflow_name ≡ c.workflow_name
  pub key : job.idempotency_key ≡ c.idempotency_key

kept-IsNamed : (d d' : Db) (c : ClaimedStep) → Keeps d d' → IsNamed d c → IsNamed d' c
kept-IsNamed d d' c k n =
    let (j, m, same) = k.jobs n.job n.job_in in
    record {
      job = j;
      job_in = m;
      id = same.id ∙ n.id;
      workflow = same.workflow_name ∙ n.workflow;
      key = same.idempotency_key ∙ n.key;
    }

module _ (d : Db) (v : Inv d) (locked : ℕ → Bool) (worker : String) (ttl : ℕ)
    (ms : List Metric) where
  abbrev claim : Result Error (Option ClaimedStep) × Session
  claim = claim_step locked worker ttl (at d ms)

  claim-IsNamed : (c : ClaimedStep) → claim.0 ≡ ok (some c) → IsNamed (published claim) c
  claim-IsNamed c e = elim (Option-cases (picked locked d)) [
    | inl n ↦ absurd (ground (arith, (claim_none locked d worker ttl ms n).0))
    | inr (p, h) ↦
        let (m, ready, _) = picked-claimable locked d p h in
        let (j, ej) = v.keyed.has_job p m in
        let (mj, hj) = job_with-some p.job_id d j ej in
        let answer = claim_answer locked d worker ttl ms v p j h ej in
        let (k, mk, same) = (claim_step-Keeps d ms v locked worker ttl).jobs j mj in
        record {
          job = k;
          job_in = mk;
          id = ground (arith, answer, e, same.id, hj);
          workflow = ground (arith, answer, e, same.workflow_name);
          key = ground (arith, answer, e, same.idempotency_key);
        }
  ]

  granted-IsNamed :
      (cs : List ClaimedStep) (r : Result Error (Option ClaimedStep))
      → claim.0 ≡ r
      → ((c : ClaimedStep) → In c cs → IsNamed d c)
      → (c : ClaimedStep) → In c (granted r cs)
      → IsNamed (published claim) c
  granted-IsNamed cs (err _) e h c m =
      kept-IsNamed d _ c (claim_step-Keeps d ms v locked worker ttl) (h c m)
  granted-IsNamed cs (ok none) e h c m =
      kept-IsNamed d _ c (claim_step-Keeps d ms v locked worker ttl) (h c m)
  granted-IsNamed cs (ok (some k)) e h c here = claim-IsNamed c e
  granted-IsNamed cs (ok (some k)) e h c (there m) =
      kept-IsNamed d _ c (claim_step-Keeps d ms v locked worker ttl) (h c m)

Reach-IsNamed {ℓ} :
    {H : Type ℓ} {d₀ : Db} {d : Db} {cs : List ClaimedStep}
    → IsSound d₀ []
    → Reach H d₀ [] d cs
    → (c : ClaimedStep) → In c cs
    → IsNamed d c
Reach-IsNamed s₀ start c m = absurd (elim m [ ])
Reach-IsNamed s₀ (waits {d = d} n r) c m =
    kept-IsNamed d _ c (record { steps = steps_same _ _ refl; jobs = jobs_same _ _ refl })
      (Reach-IsNamed s₀ r c m)
Reach-IsNamed s₀ (submits {d = d} uuid4 registry name key input ms proper r) c m =
    kept-IsNamed d _ c
      (submit_job-Keeps uuid4 registry name key input d ms (Reach-IsSound s₀ r).inv)
      (Reach-IsNamed s₀ r c m)
Reach-IsNamed s₀ (cancels {d = d} job_id ms r) c m =
    kept-IsNamed d _ c (cancel_job-Keeps d ms (Reach-IsSound s₀ r).inv job_id)
      (Reach-IsNamed s₀ r c m)
Reach-IsNamed s₀ (replays {d = d} job_id name ms r) c m =
    kept-IsNamed d _ c (replay_step-Keeps d ms (Reach-IsSound s₀ r).inv job_id name)
      (Reach-IsNamed s₀ r c m)
Reach-IsNamed s₀ (claims {d = d} {cs = cs} locked worker ttl ms r) c m =
    granted-IsNamed d (Reach-IsSound s₀ r).inv locked worker ttl ms cs _ refl (Reach-IsNamed s₀ r) c
      m
Reach-IsNamed s₀ (renews {d = d} step_id worker token ttl ms r) c m =
    kept-IsNamed d _ c (heartbeat-Keeps d ms (Reach-IsSound s₀ r).inv step_id worker token ttl)
      (Reach-IsNamed s₀ r c m)
Reach-IsNamed s₀ (succeeds {d = d} k output ms i r) c m =
    let s = Reach-IsSound s₀ r in
    kept-IsNamed d _ c (complete_success-Keeps d ms s.inv k output (s.issued k i))
      (Reach-IsNamed s₀ r c m)
Reach-IsNamed s₀ (fails {d = d} k f ms i r) c m =
    kept-IsNamed d _ c (complete_failure-Keeps d ms (Reach-IsSound s₀ r).inv k f)
      (Reach-IsNamed s₀ r c m)

-- Along any history that begins with sound tables and no claim, whoever is granted a step, first, after
-- a retry, a theft or a replay, runs its handler with the same key for its effects.
pub effect_key_stable {ℓ} :
    {H : Type ℓ} {d₀ : Db} {d : Db} {cs : List ClaimedStep}
    → IsSound d₀ []
    → Reach H d₀ [] d cs
    → (c k : ClaimedStep) (worker other : String) → In c cs
    → In k cs
    → c.step_id ≡ k.step_id
    → (context_of c worker).idempotency_key ≡ (context_of k other).idempotency_key
unfolding context_of effect_key
effect_key_stable s₀ r c k worker other mc mk same =
    let s = Reach-IsSound s₀ r in
    let ic = s.issued c mc in
    let ik = s.issued k mk in
    let nc = Reach-IsNamed s₀ r c mc in
    let nk = Reach-IsNamed s₀ r k mk in
    let row : ic.row ≡ ik.row =
      s.inv.keyed.step_id ic.row ik.row ic.row_in ik.row_in
        (ground (arith, ic.row_id, ik.row_id)) in
    let job : nc.job ≡ nk.job =
      s.inv.keyed.job_id nc.job nk.job nc.job_in nk.job_in
        (ground (arith, nc.id, nk.id, ic.row_job, ik.row_job, row)) in
    let workflow : c.workflow_name ≡ k.workflow_name =
      ground (arith, nc.workflow, nk.workflow, job) in
    let key : c.idempotency_key ≡ k.idempotency_key = ground (arith, nc.key, nk.key, job) in
    let name : c.name ≡ k.name = ground (arith, ic.row_name, ik.row_name, row) in
    rw (workflow, key, name) refl
