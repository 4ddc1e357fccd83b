-- ===== src/Recovery/Advance.antt =====
-- `complete_success` hands the job on: the next step can be claimed.
use platform_forge.Effects.{published, at}
use platform_forge.Claims.Claim.{job_with, has_active, claimable}
use platform_forge.Invariant.{Inv}
use platform_forge.Effects.Success.{admitted, success_done, success_refused, IsIssued}
use platform_forge.Claims.Claimed.{
  ClaimedStep, finish_attempt, cancel_owned_step, record_fence_reject, Verdict,
}
use platform_forge.Metrics.{Metric}
use platform_forge.Claims.Complete.{
  complete_advance, complete_success_sql, completable, complete_success, complete_refused,
  finish_job_sql, succeed_row, next_blocked, unblock_row,
}
use platform_forge.Models.{StepRow, Value, Db}
use platform_forge.Prelude.{
  some, inr, Option-cases, refl, false, In, ap, sym, inl, ◌+◌, ◌∙◌, update, ◌≡◌, In-update, List,
  find-In, ok, find, true, arith,
}

module _ (c : ClaimedStep) (output : Value) (d : Db) (ms : List Metric) (v : Inv d)
    (is : IsIssued d c) where
  abbrev after : Db
  after = published (complete_success c output (at d ms))

  success_now : after.now ≡ d.now
  unfolding complete_success complete_success_sql complete_refused cancel_owned_step
      record_fence_reject finish_attempt complete_advance finish_job_sql
  success_now = ground arith

  -- The step after a running one waits to be unblocked, as its job is active.
  next_waits :
      (p u : StepRow)
      → find (completable c.step_id c.fencing_token d) d.steps ≡ some p
      → In u d.steps
      → u.job_id ≡ c.job_id
      → u.seq ≡ c.seq + 1
      → (next_blocked c.job_id (c.seq + 1) u ≡ true)
        × (has_active (job_with c.job_id d) ≡ true)
        × (completable c.step_id c.fencing_token d u ≡ false)
  unfolding completable
  next_waits p u e m ej eq =
      let (mp, h, same) = admitted c output d ms v is p e in
      let job : p.job_id ≡ c.job_id = ap (λ (s : StepRow). s.job_id) same ∙ is.row_job in
      let seq : p.seq ≡ c.seq = ap (λ (s : StepRow). s.seq) same ∙ is.row_seq in
      let (j, found) = v.keyed.has_job u m in
      let fit = v.coherent j u m found in
      let reached = v.ordered p u mp m (job ∙ sym ej) (omega arith) in
      let here_active : has_active (job_with p.job_id d) ≡ true = ground arith in
      let active : has_active (job_with c.job_id d) ≡ true = rw job at here_active in
      (
        ground (arith, fit, reached, h, active),
        active,
        ground (arith, seq, h, v.keyed.step_id u p m mp),
      )

  -- Where the invariant holds, once a granted claim is answered by `succeeded` the next step of the job,
  -- if there is one, is claimable.
  pub succeeded_next_claimable :
      (complete_success c output (at d ms)).0 ≡ ok Verdict.succeeded
      → (u : StepRow) → In u d.steps
      → u.job_id ≡ c.job_id
      → u.seq ≡ c.seq + 1
      → (t : StepRow) × In t after.steps × (t.id ≡ u.id) × (claimable after t ≡ true)
  unfolding claimable job_with
  succeeded_next_claimable e u m ej eq =
      let done = completable c.step_id c.fencing_token d in
      let next = next_blocked c.job_id (c.seq + 1) in
      elim (Option-cases (find done d.steps)) [
        | inl n ↦ absurd (ground (arith, (success_refused c output d ms n).2))
        | inr (p, found) ↦
            let (waits, active, other) = next_waits p u found m ej eq in
            let (steps, jobs, _) = success_done c output d ms p found in
            let kept : In u (update done (succeed_row d.now output) d.steps) =
              (let k = In-update done (succeed_row d.now output) m in rw other at k) in
            let moved = In-update next (unblock_row d.now) kept in
            let some_next = find-In next kept waits in
            (
              unblock_row d.now u,
              rw steps (rw waits at moved),
              refl,
              ground (arith, jobs, some_next, active, success_now, ej),
            )
      ]
