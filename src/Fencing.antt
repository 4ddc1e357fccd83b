-- ===== src/Fencing.antt =====
-- The fencing token: a worker whose lease was stolen cannot write.
use platform_forge.Api.Jobs.{jobs}
use platform_forge.Api.{answer}
use platform_forge.Effects.Heartbeat.{heartbeat_missed_tables}
use platform_forge.Effects.Failure.{failure_stale}
use platform_forge.Metrics.{Metric}
use platform_forge.Effects.{at, published}
use platform_forge.Claims.Claim.{job_with}
use platform_forge.Models.{Db, Value, StepRow, is_succeeded}
use platform_forge.Store.{Error}
use platform_forge.Claims.Claimed.{owned, ClaimedStep, Verdict}
use platform_forge.Claims.Heartbeat.{joined, heartbeat, beats, heartbeat_missed}
use platform_forge.Invariant.{Inv}
use platform_forge.Effects.Success.{success_refused, refused_same, IsIssued, admitted, success_done}
use platform_forge.Claims.Complete.{
  complete_failure, Failure, has_cancelled, completable, complete_success, unblock_row,
  next_blocked, succeed_row,
}
use platform_forge.Prelude.{
  ℕ, ◌≡◌, Result, find, List, ◌<◌, ok, arith, none, find-miss, if◌then◌else◌, String, In, Bool, inr,
  ◌∙◌, Option-cases, ◌&&◌, ◌==◌, some, ap, false, inl, subst, ◌+◌, true, In-update, sym,
}

-- The verdict on a worker that no longer owns its step.
abbrev pub refusal : ClaimedStep → Db → Result Error Verdict
refusal c d =
    ok (if has_cancelled (job_with c.job_id d) then Verdict.cancelled else Verdict.rejected_fence)

module _ (c : ClaimedStep) (d : Db) (v : Inv d) (is : IsIssued d c)
    (stale : c.fencing_token < is.row.fencing_token) where
  stale_owned : find (owned c.step_id c.fencing_token) d.steps ≡ none
  stale_owned =
      find-miss (owned c.step_id c.fencing_token) d.steps
        λ s m. ground (arith, v.keyed.step_id s is.row m is.row_in, is.row_id)

  stale_done : find (completable c.step_id c.fencing_token d) d.steps ≡ none
  unfolding completable
  stale_done =
      find-miss _ d.steps λ s m. ground (arith, v.keyed.step_id s is.row m is.row_in, is.row_id)

  -- Where the invariant holds and a granted claim has a smaller token than its row, reporting success
  -- changes no job and no step, and the answer is `rejected_fence`, or `cancelled` if the job is
  -- cancelled.
  pub stale_success_rejected :
      (output : Value) (ms : List Metric)
      → let r = complete_success c output (at d ms) in
        ((published r).steps ≡ d.steps) × ((published r).jobs ≡ d.jobs) × (r.0 ≡ refusal c d)
  stale_success_rejected output ms =
      let (steps, jobs) = refused_same c output d ms v is stale_done in
      (steps, jobs, (success_refused c output d ms stale_done).2)

  -- Where the invariant holds and a granted claim has a smaller token than its row, reporting a failure
  -- changes no job and no step, whatever the failure and whether or not a retry is left, and the
  -- answer is `rejected_fence`, or `cancelled` if the job is cancelled.
  pub stale_failure_rejected :
      (f : Failure) (ms : List Metric)
      → let r = complete_failure c f (at d ms) in
        ((published r).steps ≡ d.steps) × ((published r).jobs ≡ d.jobs) × (r.0 ≡ refusal c d)
  stale_failure_rejected f ms = failure_stale c f d ms stale_owned

  no_join : (p : StepRow → Bool) → ((s : StepRow) → In s d.steps → p s ≡ false) → joined p d ≡ none
  unfolding joined
  no_join p h = ground (arith, find-miss p d.steps h)

  not_mine :
      (s : StepRow)
      → In s d.steps
      → (s.id == c.step_id && s.fencing_token == c.fencing_token) ≡ false
  not_mine s m = ground (arith, v.keyed.step_id s is.row m is.row_in, is.row_id)

  not_beating :
      (worker : String) (s : StepRow)
      → In s d.steps
      → beats c.step_id worker c.fencing_token s ≡ false
  unfolding beats
  not_beating worker s m = ground (arith, not_mine s m)

  missed_none : heartbeat_missed c.step_id c.fencing_token d ≡ none
  unfolding heartbeat_missed
  missed_none =
      ground
        (arith, no_join (λ s. s.id == c.step_id && s.fencing_token == c.fencing_token) not_mine)

  -- Where the invariant holds and a granted claim has a smaller token than its row, its heartbeat
  -- changes nothing and answers with nothing, that is, the lease is lost.
  pub stale_heartbeat_lost :
      (worker : String) (ttl : ℕ) (ms : List Metric)
      → let r = heartbeat c.step_id worker c.fencing_token ttl (at d ms) in
        (published r ≡ d) × (r.0 ≡ ok none)
  stale_heartbeat_lost worker ttl ms =
      let (same, answer) =
        heartbeat_missed_tables c.step_id worker c.fencing_token ttl d ms
          (no_join (beats c.step_id worker c.fencing_token) (not_beating worker)) in
      (same, answer ∙ ap ok missed_none)

module _ (c : ClaimedStep) (output : Value) (d : Db) (ms : List Metric) (v : Inv d)
    (is : IsIssued d c) where
  abbrev pub after : Db
  after = published (complete_success c output (at d ms))

  pub success_found :
      (complete_success c output (at d ms)).0 ≡ ok Verdict.succeeded
      → (p : StepRow) × (find (completable c.step_id c.fencing_token d) d.steps ≡ some p)
  success_found e = elim (Option-cases (find (completable c.step_id c.fencing_token d) d.steps)) [
    | inl n ↦ absurd (ground (arith, (success_refused c output d ms n).2))
    | inr found ↦ found
  ]

  -- The claim's row has succeeded.
  pub completed_row :
      (p : StepRow)
      → find (completable c.step_id c.fencing_token d) d.steps ≡ some p
      → (t : StepRow) × In t after.steps × (t.id ≡ c.step_id) × (is_succeeded t.status ≡ true)
  unfolding completable
  completed_row p e =
      let (steps, _, _) = success_done c output d ms p e in
      let (mp, h, same) = admitted c output d ms v is p e in
      let done : StepRow → Bool = completable c.step_id c.fencing_token d in
      let mt = In-update done (succeed_row d.now output) mp in
      let mu = In-update (next_blocked c.job_id (c.seq + 1)) (unblock_row d.now) mt in
      (_, subst (In _) (sym steps) mu, ground arith, ground arith)
