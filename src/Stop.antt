-- ===== src/Stop.antt =====
-- What a cancellation does to the job, and what the worker that still runs one of its steps is told.
use platform_forge.Claims.Claim.{job_with}
use platform_forge.Invariant.{Inv}
use platform_forge.Effects.Failure.{failure_stale}
use platform_forge.Effects.Success.{IsIssued, refused_same, success_refused}
use platform_forge.Claims.Claimed.{owned, ClaimedStep, Verdict}
use platform_forge.Claims.Complete.{
  completable, Failure, complete_success, complete_failure, has_cancelled,
}
use platform_forge.Metrics.{Metric}
use platform_forge.Effects.{published, at}
use platform_forge.Effects.Cancel.{active_found, cancel_refused, cancel_job-Inv, cancel_tables}
use platform_forge.Models.{
  Db, is_succeeded, is_running, StepRow, JobRow, Value, is_cancelled, JobStatus,
}
use platform_forge.Claims.Heartbeat.{heartbeat_missed, heartbeat, joined, beats}
use platform_forge.Effects.Heartbeat.{heartbeat_missed_tables}
use platform_forge.Claims.Cancel.{active_job, cancel_job_row, cancel_job}
use platform_forge.Prelude.{
  ℕ, ◌∙◌, find, ◌||◌, true, inl, find-some, List, ok, inr, ◌≡◌, none, refl, find-miss, String, In,
  Option-cases, ◌&&◌, false, ◌==◌, find-In, sym, arith, Bool, some, find-update, ap,
}

module _ (job_id : ℕ) (d : Db) (ms : List Metric) (v : Inv d) where
  cancelled_found :
      (k : JobRow)
      → find (active_job job_id) d.jobs ≡ some k
      → has_cancelled (job_with job_id (published (cancel_job job_id (at d ms)))) ≡ true
  unfolding job_with
  cancelled_found k found =
      let (_, jobs, _) = cancel_tables job_id d ms k found in
      let (j, ej, active) = active_found job_id d ms v k found in
      let (m, h) = find-some (λ k. k.id == job_id) j d.jobs ej in
      ground (
        arith,
        jobs,
        find-update (λ k. k.id == job_id) (active_job job_id) (cancel_job_row d.now) d.jobs
            (λ k. refl),
      )

  pub cancelled_settles :
      (cancel_job job_id (at d ms)).0 ≡ ok tt
      → let after = published (cancel_job job_id (at d ms)) in
        (has_cancelled (job_with job_id after) ≡ true)
        × ((s : StepRow)
            → In s after.steps
            → s.job_id ≡ job_id
            → (is_cancelled s.status || is_succeeded s.status) ≡ true)
  cancelled_settles e = elim (Option-cases (find (active_job job_id) d.jobs)) [
    | inl n ↦ absurd (ground (arith, (cancel_refused job_id d ms n).1))
    | inr (k, found) ↦
        let settled = cancelled_found k found in
        let w = cancel_job-Inv job_id d ms v in
        (
          settled,
          λ s m same.
              let (j, ej) = w.keyed.has_job s m in
              ground (arith, w.coherent j s m ej, rw (← same) at settled),
        )
  ]

module _ (c : ClaimedStep) (d : Db) (ms : List Metric) (v : Inv d) (is : IsIssued d c)
    (gone : has_cancelled (job_with c.job_id d) ≡ true) where
  -- No step of a cancelled job runs.
  idle : (s : StepRow) → In s d.steps → s.id ≡ c.step_id → is_running s.status ≡ false
  idle s m e =
      let same : s ≡ is.row = v.keyed.step_id s is.row m is.row_in (e ∙ sym is.row_id) in
      let job : s.job_id ≡ c.job_id = ap (λ (t : StepRow). t.job_id) same ∙ is.row_job in
      let (j, ej) = v.keyed.has_job s m in ground (arith, v.coherent j s m ej, rw (← job) at gone)

  -- Where the invariant holds, a worker that was granted a step of a job that is cancelled can neither
  -- complete it nor fail it: no job and no step changes, and the answer is `cancelled`.
  pub cancelled_reports :
      (output : Value) (f : Failure)
      → let r = complete_success c output (at d ms) in
        let q = complete_failure c f (at d ms) in
        ((published r).steps ≡ d.steps)
        × ((published r).jobs ≡ d.jobs)
        × (r.0 ≡ ok Verdict.cancelled)
        × ((published q).steps ≡ d.steps)
        × ((published q).jobs ≡ d.jobs)
        × (q.0 ≡ ok Verdict.cancelled)
  unfolding completable
  cancelled_reports output f =
      let closed : find (completable c.step_id c.fencing_token d) d.steps ≡ none =
        find-miss _ d.steps (λ s m. ground (arith, idle s m)) in
      let free : find (owned c.step_id c.fencing_token) d.steps ≡ none =
        find-miss _ d.steps (λ s m. ground (arith, idle s m)) in
      let (steps, jobs) = refused_same c output d ms v is closed in
      let (_, _, told) = success_refused c output d ms closed in
      let (steps', jobs', told') = failure_stale c f d ms free in
      (steps, jobs, rw gone at told, steps', jobs', rw gone at told')

  -- Where the invariant holds, the heartbeat of a worker that was granted a step of a job that is
  -- cancelled changes nothing and answers `cancelled`, if the row still has its token.
  pub cancelled-heartbeat :
      (worker : String) (ttl : ℕ)
      → is.row.fencing_token ≡ c.fencing_token
      → let r = heartbeat c.step_id worker c.fencing_token ttl (at d ms) in
        (published r ≡ d) × (r.0 ≡ ok (some JobStatus.cancelled))
  unfolding heartbeat_missed joined beats
  cancelled-heartbeat worker ttl current =
      let p : StepRow → Bool = λ s. s.id == c.step_id && s.fencing_token == c.fencing_token in
      let quiet : find (beats c.step_id worker c.fencing_token) d.steps ≡ none =
        find-miss _ d.steps (λ s m. ground (arith, idle s m)) in
      let (same, answer) =
        heartbeat_missed_tables c.step_id worker c.fencing_token ttl d ms (ground (arith, quiet)) in
      let hit : p is.row ≡ true = ground (arith, is.row_id) in
      elim (Option-cases (find p d.steps)) [
        | inl n ↦ absurd (find-In p is.row_in hit n)
        | inr (s, found) ↦
            let (m, h) = find-some p s d.steps found in
            let one : s ≡ is.row =
              v.keyed.step_id s is.row m is.row_in (ground (arith, is.row_id)) in
            let job : s.job_id ≡ c.job_id = ap (λ (t : StepRow). t.job_id) one ∙ is.row_job in
            (same, answer ∙ ground (arith, found, job, gone))
      ]
