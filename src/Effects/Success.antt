-- ===== src/Effects/Success.antt =====
-- `complete_success`: the tables that it leaves, and the invariant.
use platform_forge.Invariant.RowWise.{same-Inv}
use platform_forge.Invariant.Succeed.{left_over, succeed-Inv}
use platform_forge.Invariant.{Inv}
use platform_forge.Metrics.{Metric}
use platform_forge.Claims.Claim.{job_with}
use platform_forge.Store.{Session, Error}
use platform_forge.Models.{is_succeeded, Db, StepRow, job_is_running, Value, JobRow}
use platform_forge.Effects.{at, published}
use platform_forge.Claims.Complete.{
  finish_job, finish_job_sql, unfinished, succeed_row, complete_success, next_blocked,
  has_cancelled, is_found, complete_success_sql, unblock_row, completable, complete_refused,
  complete_advance,
}
use platform_forge.Claims.Claimed.{
  record_fence_reject, ClaimedStep, finish_attempt, cancel_row, cancel_owned_step, owned, Verdict,
}
use platform_forge.Prelude.{
  Result, some, none, Bool, update-none, not, In, ◌≤◌, find, any, ◌&&◌, ◌≡◌, ◌==◌, ok, arith,
  if◌then◌else◌, List, ◌+◌, update, find-some, true, ◌∙◌, Option-cases, map-id, update-eq-map, inl,
  false, inr, In-update-cases, changed, ap, map, update-miss, Bool-cases, ◌⊎◌,
}

-- The claimed step is a row of the table, under the same job and number. Its token may be stale.
pub record IsIssued (d : Db) (c : ClaimedStep) : Type 0 where
  pub row : StepRow
  pub row_in : In row d.steps
  pub row_id : row.id ≡ c.step_id
  pub row_job : row.job_id ≡ c.job_id
  pub row_seq : row.seq ≡ c.seq
  pub row_name : row.name ≡ c.name
  pub row_token : c.fencing_token ≤ row.fencing_token

module _ (c : ClaimedStep) (d : Db) (v : Inv d) (is : IsIssued d c) where
  -- A step of a cancelled job is not running, so none is owned.
  pub cancelled_unowned :
      has_cancelled (job_with c.job_id d) ≡ true
      → update (owned c.step_id c.fencing_token) (cancel_row d.now) d.steps ≡ d.steps
  cancelled_unowned h = update-miss _ _ d.steps λ s m.
      let (j, ej) = v.keyed.has_job s m in
      ground
        (arith, v.keyed.step_id s is.row m is.row_in, v.coherent j s m ej, is.row_job, is.row_id)

module _ (c : ClaimedStep) (output : Value) (d : Db) (ms : List Metric) where
  abbrev outcome : Result Error Verdict × Session
  outcome = complete_success c output (at d ms)

  abbrev done : StepRow → Bool
  done = completable c.step_id c.fencing_token d

  abbrev steps_done : List StepRow
  steps_done = update done (succeed_row d.now output) d.steps

  abbrev next : StepRow → Bool
  next = next_blocked c.job_id (c.seq + 1)

  -- With no row to complete the jobs and steps stay as they are, up to the cancellation of the row.
  pub success_refused :
      find done d.steps ≡ none
      → ((published outcome).jobs ≡ d.jobs)
        × ((published outcome).steps ≡ (
            if has_cancelled (job_with c.job_id d)
            then update (owned c.step_id c.fencing_token) (cancel_row d.now) d.steps
            else d.steps))
        × (outcome.0
            ≡ ok (
                if has_cancelled (job_with c.job_id d)
                then Verdict.cancelled
                else Verdict.rejected_fence))
  unfolding complete_success complete_success_sql complete_refused cancel_owned_step
      record_fence_reject finish_attempt job_with
  success_refused e = ground (arith, update-none done (succeed_row d.now output) d.steps e)

  abbrev steps_final : List StepRow
  steps_final = update next (unblock_row d.now) steps_done

  abbrev unsucceeded : StepRow → Bool
  unsucceeded s = s.job_id == c.job_id && not (is_succeeded s.status)

  -- The job is over if no step is left that has not succeeded.
  abbrev ends : List StepRow → JobRow → Bool
  ends steps j = j.id == c.job_id && job_is_running j.status && not (any unsucceeded steps)

  -- The claimed row succeeds and the next one is unblocked; with no next one the job may be over.
  pub success_done :
      (p : StepRow)
      → find done d.steps ≡ some p
      → ((published outcome).steps ≡ steps_final)
        × ((published outcome).jobs ≡ (
            if is_found (find next steps_done)
            then d.jobs
            else update (ends steps_final) (finish_job d.now) d.jobs))
        × (outcome.0 ≡ ok Verdict.succeeded)
  unfolding complete_success complete_success_sql complete_advance finish_attempt finish_job_sql
      unfinished
  success_done p e = ground arith

  pub success_jobs :
      (p : StepRow)
      → find done d.steps ≡ some p
      → ((published outcome).jobs ≡ d.jobs)
        ⊎ ((published outcome).jobs ≡ update (ends steps_final) (finish_job d.now) d.jobs)
  success_jobs p e = elim (Bool-cases (is_found (find next steps_done))) [
    | inl h ↦ inl (let (_, jobs, _) = success_done p e in rw h at jobs)
    | inr h ↦ inr (let (_, jobs, _) = success_done p e in rw h at jobs)
  ]

  module _ (v : Inv d) (is : IsIssued d c) where
    -- The row that the fence admits is the claimed one.
    pub admitted :
        (p : StepRow) → find done d.steps ≡ some p → In p d.steps × (done p ≡ true) × (p ≡ is.row)
    unfolding completable
    admitted p e =
        let (m, h) = find-some done p d.steps e in
        (m, h, v.keyed.step_id p is.row m is.row_in (ground (arith, is.row_id)))

    abbrev end_job : Bool → JobRow → JobRow
    end_job over =
        changed (λ j. j.id == c.job_id && job_is_running j.status && over) (finish_job d.now)

    advanced-Inv :
        (p u : StepRow)
        → find done d.steps ≡ some p
        → find next steps_done ≡ some u
        → Inv (published outcome)
    advanced-Inv p u e eu =
        let (m, h, same) = admitted p e in
        let (steps, jobs, _) = success_done p e in
        let (mu, hu) = find-some next u steps_done eu in
        let (t, mt, et) = In-update-cases done (succeed_row d.now output) d.steps mu in
        let kept : (published outcome).jobs ≡ map (end_job false) d.jobs =
          rw (map-id (end_job false) d.jobs (λ j. ground arith)) (ground (arith, jobs, eu)) in
        succeed-Inv d c output p v m h (ap (λ (s : StepRow). s.job_id) same ∙ is.row_job)
          (ap (λ (s : StepRow). s.seq) same ∙ is.row_seq) (published outcome) false steps kept
          (λ e. cc) (λ _. (t, mt, ground (arith, et, hu)))

    last-Inv :
        (p : StepRow)
        → find done d.steps ≡ some p
        → find next steps_done ≡ none
        → Inv (published outcome)
    last-Inv p e none_left =
        let (m, h, same) = admitted p e in
        let (steps, jobs, _) = success_done p e in
        let ej : p.job_id ≡ c.job_id = ap (λ (s : StepRow). s.job_id) same ∙ is.row_job in
        let eq : p.seq ≡ c.seq = ap (λ (s : StepRow). s.seq) same ∙ is.row_seq in
        let over : Bool = not (any unsucceeded steps_done) in
        let fixed : steps_final ≡ steps_done =
          update-none next (unblock_row d.now) steps_done none_left in
        let ended : (published outcome).jobs ≡ map (end_job over) d.jobs =
          ground (arith, jobs, none_left, fixed)
          ∙ update-eq-map (ends steps_done) (finish_job d.now) d.jobs in
        succeed-Inv d c output p v m h ej eq (published outcome) over steps ended
          (λ e. ground arith) (λ e. left_over d c output p v m h ej eq (ground arith))

    -- A completion that the fence refuses changes neither jobs nor steps.
    pub refused_same :
        find done d.steps ≡ none
        → ((published outcome).steps ≡ d.steps) × ((published outcome).jobs ≡ d.jobs)
    refused_same e = elim (Bool-cases (has_cancelled (job_with c.job_id d))) [
      | inl h ↦
          let (jobs, steps, _) = success_refused e in
          (ground (arith, steps, cancelled_unowned c d v is h), jobs)
      | inr h ↦ let (jobs, steps, _) = success_refused e in (ground (arith, steps), jobs)
    ]

    -- A completion keeps the invariant of the tables, whether its fence is admitted or not.
    pub complete_success-Inv : Inv (published outcome)
    complete_success-Inv = elim (Option-cases (find done d.steps)) [
      | inl e ↦ let (steps, jobs) = refused_same e in same-Inv d _ steps jobs v
      | inr (p, e) ↦ elim (Option-cases (find next steps_done)) [
        | inl n ↦ last-Inv p e n
        | inr (u, n) ↦ advanced-Inv p u e n
      ]
    ]
