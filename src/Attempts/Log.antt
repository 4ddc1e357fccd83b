-- ===== src/Attempts/Log.antt =====
-- A submit keeps the log of the leases, and so does any history.
use platform_forge.Claims.Cancel.{replay_step, cancel_job}
use platform_forge.Claims.Heartbeat.{heartbeat}
use platform_forge.Claims.Claim.{claim_step}
use platform_forge.Claims.Complete.{complete_success, complete_failure}
use platform_forge.Invariant.Filled.{IsNew}
use platform_forge.Attempts.Every.{closed-LogsAll, granted-LogsAll, unwritten-LogsAll}
use platform_forge.Attempts.Writes.{
  success_attempts, cancel_attempts, failure_attempts, replay_attempts, heartbeat_attempts,
}
use platform_forge.Invariant.Claim.{job_with-some}
use platform_forge.Attempts.Granted.{claim_step-IsLogged}
use platform_forge.Claims.Claimed.{ClaimedStep}
use platform_forge.Durable.Completions.{submit_job-Keeps}
use platform_forge.Registry.{Workflow, get}
use platform_forge.Claims.Submit.{submit_job}
use platform_forge.Effects.SubmitLaws.{
  unknown_raises, submit_duplicate, submit_atomic, created_tables,
}
use platform_forge.Metrics.{Metric}
use platform_forge.Invariant.{Inv}
use platform_forge.Effects.{at, published}
use platform_forge.Attempts.{IsLogged, LogsAll}
use platform_forge.Attempts.Calls.{
  runs_on, kept-IsLogged, none_written, heartbeat-IsLogged, cancel_job-IsLogged,
  replay_step-IsLogged, rests_on,
}
use platform_forge.Attempts.Reports.{complete_failure-IsLogged, complete_success-IsLogged}
use platform_forge.Attempts.Issues.{submit_attempts}
use platform_forge.History.{
  IsSound, Reach, Reach-IsSound, start, waits, submits, cancels, replays, claims, renews, succeeds,
  fails, empty,
}
use platform_forge.Models.{Db, Value, StepRow}
use platform_forge.Prelude.{
  ℕ, ◌≡◌, arith, refl, some, Bool-cases, String, true, Option-cases, ◌+◌, inr, List, inl,
  Result-cases, ok, false, any, ◌≢◌, ◌==◌, ap, ◌∙◌, any-false, In,
}

-- A row that a submit inserts is not an old one, as its job is not.
new_unlike :
    (d : Db) (v : Inv d) (id n : ℕ)
    → any (λ j. j.id == id) d.jobs ≡ false
    → (r t : StepRow) → In r d.steps
    → IsNew id n t
    → r ≢ t
new_unlike d v id n free r t m new e =
    let (j, ej) = v.keyed.has_job r m in
    let (mj, hj) = job_with-some r.job_id d j ej in
    ground (arith, any-false (λ k. k.id == id) mj free, new.job_id)

module _ {ℓ} {H : Type ℓ} (uuid4 : ℕ → ℕ) (registry : List (Workflow H)) (name key : String)
    (input : Value) (d : Db) (ms : List Metric) (v : Inv d) (l : IsLogged d) where
  created-IsLogged :
      (wf : Workflow H) (id : ℕ)
      → get registry name ≡ some wf
      → (submit_job uuid4 registry name key input (at d ms)).0 ≡ ok (id, true)
      → IsLogged (published (submit_job uuid4 registry name key input (at d ms)))
  created-IsLogged wf id w e =
      let (full, _, free, _) = created_tables uuid4 registry name key input d ms wf id v w e in
      kept-IsLogged d _ l (submit_job-Keeps uuid4 registry name key input d ms v)
        (submit_attempts uuid4 registry name key input d ms wf id w e)
        (λ t m h. elim (full.cases t m) [
          | inl old ↦ runs_on none_written d t old h (λ a i n. refl)
          | inr new ↦ absurd (ground (arith, new.status))
        ])
        (λ t m h. elim (full.cases t m) [
          | inl old ↦ rests_on none_written d t old h
          | inr new ↦ inr (λ a ma i n s.
              let (r, mr, id, _) = l.known a ma in
              absurd (
                new_unlike d v (uuid4 0) _ free r t mr new
                  (full.by_id r t (full.kept r mr) m (id ∙ i))))
        ])

  submit_job-IsLogged : IsLogged (published (submit_job uuid4 registry name key input (at d ms)))
  submit_job-IsLogged = elim (Result-cases (submit_job uuid4 registry name key input (at d ms)).0) [
    | inl (e, h) ↦ rw (submit_atomic uuid4 registry name key input d ms e h) l
    | inr ((id, new), h) ↦ elim (Bool-cases new) [
      | inl n ↦ elim (Option-cases (get registry name)) [
        | inl gone ↦ absurd (unknown_raises uuid4 registry name key input d ms (id, new) gone h)
        | inr (wf, w) ↦ created-IsLogged wf id w (rw n at h)
      ]
      | inr old ↦ rw (submit_duplicate uuid4 registry name key input d ms id (rw old at h)).0 l
    ]
  ]

module _ {ℓ} {H : Type ℓ} (uuid4 : ℕ → ℕ) (registry : List (Workflow H)) (name key : String)
    (input : Value) (d : Db) (ms : List Metric) where
  submit_unwritten :
      (published (submit_job uuid4 registry name key input (at d ms))).attempts ≡ d.attempts
  submit_unwritten = elim (Result-cases (submit_job uuid4 registry name key input (at d ms)).0) [
    | inl (e, h) ↦
        ap (λ (x : Db). x.attempts) (submit_atomic uuid4 registry name key input d ms e h)
    | inr ((id, new), h) ↦ elim (Bool-cases new) [
      | inl n ↦ elim (Option-cases (get registry name)) [
        | inl gone ↦ absurd (unknown_raises uuid4 registry name key input d ms (id, new) gone h)
        | inr (wf, w) ↦ submit_attempts uuid4 registry name key input d ms wf id w (rw n at h)
      ]
      | inr old ↦
          ap (λ (x : Db). x.attempts)
            (submit_duplicate uuid4 registry name key input d ms id (rw old at h)).0
    ]
  ]

pub empty-IsLogged : (now : ℕ) → IsLogged (empty now)
empty-IsLogged now = record {
  known = λ a m. elim m [ ];
  single = λ a b m. elim m [ ];
  running = λ s m. elim m [ ];
  begun = λ a m. elim m [ ];
  settled = λ a s m. elim m [ ];
}

waits-IsLogged : (d : Db) (n : ℕ) → IsLogged d → IsLogged (record d { now = d.now + n })
waits-IsLogged d n l = record {
  known = l.known;
  single = l.single;
  running = l.running;
  begun = l.begun;
  settled = l.settled;
}

history-IsLogged {ℓ} :
    {H : Type ℓ} {d₀ : Db} {cs₀ : List ClaimedStep} {d : Db} {cs : List ClaimedStep}
    → IsSound d₀ cs₀
    → IsLogged d₀
    → Reach H d₀ cs₀ d cs
    → IsLogged d
history-IsLogged s₀ l₀ start = l₀
history-IsLogged s₀ l₀ (waits {d = d} n r) = waits-IsLogged d n (history-IsLogged s₀ l₀ r)
history-IsLogged s₀ l₀ (submits {d = d} uuid4 registry name key input ms proper r) =
    submit_job-IsLogged uuid4 registry name key input d ms (Reach-IsSound s₀ r).inv
      (history-IsLogged s₀ l₀ r)
history-IsLogged s₀ l₀ (cancels {d = d} job_id ms r) =
    cancel_job-IsLogged d ms (Reach-IsSound s₀ r).inv (history-IsLogged s₀ l₀ r) job_id
history-IsLogged s₀ l₀ (replays {d = d} job_id name ms r) =
    replay_step-IsLogged d ms (Reach-IsSound s₀ r).inv (history-IsLogged s₀ l₀ r) job_id name
history-IsLogged s₀ l₀ (claims {d = d} locked worker ttl ms r) =
    claim_step-IsLogged locked d worker ttl ms (Reach-IsSound s₀ r).inv (history-IsLogged s₀ l₀ r)
history-IsLogged s₀ l₀ (renews {d = d} step_id worker token ttl ms r) =
    heartbeat-IsLogged d ms (Reach-IsSound s₀ r).inv (history-IsLogged s₀ l₀ r) step_id worker token
      ttl
history-IsLogged s₀ l₀ (succeeds {d = d} c output ms m r) =
    let s = Reach-IsSound s₀ r in
    complete_success-IsLogged d ms s.inv (history-IsLogged s₀ l₀ r) c output (s.issued c m)
history-IsLogged s₀ l₀ (fails {d = d} c f ms m r) =
    complete_failure-IsLogged d ms (Reach-IsSound s₀ r).inv (history-IsLogged s₀ l₀ r) c f

history-LogsAll {ℓ} :
    {H : Type ℓ} {d₀ : Db} {cs₀ : List ClaimedStep} {d : Db} {cs : List ClaimedStep}
    → IsSound d₀ cs₀
    → IsLogged d₀
    → LogsAll d₀ cs₀
    → Reach H d₀ cs₀ d cs
    → LogsAll d cs
history-LogsAll s₀ l₀ all start = all
history-LogsAll s₀ l₀ all (waits {d = d} {cs = cs} n r) =
    unwritten-LogsAll d (record d { now = d.now + n }) cs refl (history-LogsAll s₀ l₀ all r)
history-LogsAll s₀ l₀ all (submits {d = d} {cs = cs} uuid4 registry name key input ms proper r) =
    unwritten-LogsAll d (published (submit_job uuid4 registry name key input (at d ms))) cs
      (submit_unwritten uuid4 registry name key input d ms) (history-LogsAll s₀ l₀ all r)
history-LogsAll s₀ l₀ all (cancels {d = d} {cs = cs} job_id ms r) =
    unwritten-LogsAll d (published (cancel_job job_id (at d ms))) cs (cancel_attempts d ms job_id)
      (history-LogsAll s₀ l₀ all r)
history-LogsAll s₀ l₀ all (replays {d = d} {cs = cs} job_id name ms r) =
    unwritten-LogsAll d (published (replay_step job_id name (at d ms))) cs
      (replay_attempts d ms job_id name) (history-LogsAll s₀ l₀ all r)
history-LogsAll s₀ l₀ all (claims {d = d} {cs = cs} locked worker ttl ms r) =
    granted-LogsAll locked d worker ttl ms (Reach-IsSound s₀ r).inv (history-IsLogged s₀ l₀ r) cs
      (claim_step locked worker ttl (at d ms)).0 refl (history-LogsAll s₀ l₀ all r)
history-LogsAll s₀ l₀ all (renews {d = d} {cs = cs} step_id worker token ttl ms r) =
    unwritten-LogsAll d (published (heartbeat step_id worker token ttl (at d ms))) cs
      (heartbeat_attempts d ms step_id worker token ttl) (history-LogsAll s₀ l₀ all r)
history-LogsAll s₀ l₀ all (succeeds {d = d} {cs = cs} c output ms m r) =
    closed-LogsAll d (published (complete_success c output (at d ms))) cs c.step_id c.fencing_token
      (success_attempts d ms c output) (history-LogsAll s₀ l₀ all r)
history-LogsAll s₀ l₀ all (fails {d = d} {cs = cs} c f ms m r) =
    closed-LogsAll d (published (complete_failure c f (at d ms))) cs c.step_id c.fencing_token
      (failure_attempts d ms c f) (history-LogsAll s₀ l₀ all r)

-- After any history of calls from sound and logged tables, as the empty ones are, the attempts log the
-- leases. Each claim that was granted has its attempt, and no two attempts are of one step and token.
-- Each is of a step of the table and under a token not above that step's. A step that runs has an open
-- one without an end, with its token and its worker, and once the step neither runs nor is cancelled, the
-- attempt of its token has an end.
pub Reach-IsLogged {ℓ} :
    {H : Type ℓ} {d₀ : Db} {cs₀ : List ClaimedStep} {d : Db} {cs : List ClaimedStep}
    → IsSound d₀ cs₀
    → IsLogged d₀
    → LogsAll d₀ cs₀
    → Reach H d₀ cs₀ d cs
    → IsLogged d × LogsAll d cs
Reach-IsLogged s₀ l₀ all r = (history-IsLogged s₀ l₀ r, history-LogsAll s₀ l₀ all r)
