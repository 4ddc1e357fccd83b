-- ===== src/Attempts/Reports.antt =====
-- The reports of a worker keep the log of the leases.
use platform_forge.Durable.Completions.{complete_success-Keeps}
use platform_forge.Claims.Claimed.{owned, ClaimedStep, open_attempt}
use platform_forge.Invariant.{Inv}
use platform_forge.Effects.{published, at}
use platform_forge.Metrics.{Metric}
use platform_forge.Effects.Success.{IsIssued, refused_same, success_done}
use platform_forge.Durable.Calls.{complete_failure-Keeps}
use platform_forge.Claims.Claim.{job_with}
use platform_forge.Claims.Complete.{
  has_cancelled, complete_failure, Failure, succeed_row, completable, next_blocked,
  complete_success, unblock_row,
}
use platform_forge.Effects.Failure.{failure_stale, failure_cancelled, failure_dead, failure_retry}
use platform_forge.Attempts.{IsLogged, RanOn, Rested, is_unsettled}
use platform_forge.Attempts.Calls.{runs_on, closed-IsLogged, rests_on}
use platform_forge.Attempts.Writes.{failure_attempts, success_attempts}
use platform_forge.Models.{Db, Value, is_running, StepRow}
use platform_forge.Prelude.{
  ◌≡◌, update, arith, In-update-cases, ltb, inr, refl, inl, Bool-cases, ◌&&◌, find-none, In, true,
  List, false, Option-cases, find, ◌+◌,
}

module _ (d : Db) (ms : List Metric) (v : Inv d) (l : IsLogged d) (c : ClaimedStep) where
  -- A running step that is not the claimed one, by id and token.
  runs_beside :
      (t : StepRow)
      → In t d.steps
      → is_running t.status ≡ true
      → owned c.step_id c.fencing_token t ≡ false
      → RanOn (open_attempt c.step_id c.fencing_token) d t
  runs_beside t m h out = runs_on _ d t m h (λ a i n. ground arith)

  owned-completable :
      (s : StepRow)
      → In s d.steps
      → owned c.step_id c.fencing_token s ≡ true
      → completable c.step_id c.fencing_token d s ≡ true
  unfolding completable
  owned-completable s m h =
      let (j, e) = v.keyed.has_job s m in let fit = v.coherent j s m e in ground arith

  -- After the UPDATE of the owned row, to a state that is not running, the others run on.
  updated-RanOn :
      (f : StepRow → StepRow) (steps : List StepRow)
      → ((s : StepRow) → is_running (f s).status ≡ false)
      → steps ≡ update (owned c.step_id c.fencing_token) f d.steps
      → (t : StepRow) → In t steps
      → is_running t.status ≡ true
      → RanOn (open_attempt c.step_id c.fencing_token) d t
  updated-RanOn f steps stops e t m h =
      let (r, mr, er) = In-update-cases (owned c.step_id c.fencing_token) f d.steps (rw e at m) in
      let out : owned c.step_id c.fencing_token r ≡ false = ground (arith, stops r) in
      let same : t ≡ r = ground arith in rw same (runs_beside r mr (ground arith) out)

  failure-RanOn :
      (f : Failure) (t : StepRow)
      → In t (published (complete_failure c f (at d ms))).steps
      → is_running t.status ≡ true
      → RanOn (open_attempt c.step_id c.fencing_token) d t
  failure-RanOn f t m h = elim (Option-cases (find (owned c.step_id c.fencing_token) d.steps)) [
    | inl e ↦
        let (steps, _, _) = failure_stale c f d ms e in
        let mt : In t d.steps = rw steps at m in
        runs_beside t mt h (find-none (owned c.step_id c.fencing_token) mt e)
    | inr (p, e) ↦ elim (Bool-cases (has_cancelled (job_with c.job_id d))) [
      | inl k ↦
          let (steps, _, _) = failure_cancelled c f d ms p e k in
          updated-RanOn _ _ (λ s. refl) steps t m h
      | inr k ↦ elim (Bool-cases (f.retryable && ltb c.attempt_count c.max_attempts)) [
        | inl again ↦
            let (steps, _, _) = failure_retry c f d ms p e k again in
            updated-RanOn _ _ (λ s. refl) steps t m h
        | inr again ↦
            let (steps, _, _) = failure_dead c f d ms p e k again in
            updated-RanOn _ _ (λ s. refl) steps t m h
      ]
    ]
  ]

  success-RanOn :
      (output : Value) (t : StepRow)
      → IsIssued d c
      → In t (published (complete_success c output (at d ms))).steps
      → is_running t.status ≡ true
      → RanOn (open_attempt c.step_id c.fencing_token) d t
  success-RanOn output t is m h =
      let done = completable c.step_id c.fencing_token d in
      elim (Option-cases (find done d.steps)) [
        | inl e ↦
            let (steps, _) = refused_same c output d ms v is e in
            let mt : In t d.steps = rw steps at m in
            runs_beside t mt h (ground (arith, owned-completable t mt, find-none done mt e))
        | inr (p, e) ↦
            let (steps, _, _) = success_done c output d ms p e in
            let (u, mu, eu) =
              In-update-cases (next_blocked c.job_id (c.seq + 1)) (unblock_row d.now) _
                (rw steps at m) in
            let (r, mr, er) = In-update-cases done (succeed_row d.now output) d.steps mu in
            let kept : t ≡ u = ground arith in
            let missed : done r ≡ false = ground arith in
            let same : t ≡ r = ground arith in
            rw same (runs_beside r mr (ground arith) (ground (arith, owned-completable r mr)))
      ]

  -- A settled step was settled before, or it is the claimed one, whose open attempts are closed.
  settled-Rested :
      (t r : StepRow)
      → In r d.steps
      → r.id ≡ t.id
      → r.fencing_token ≡ t.fencing_token
      → (is_unsettled r ≡ true → owned c.step_id c.fencing_token r ≡ true)
      → Rested (open_attempt c.step_id c.fencing_token) d t
  settled-Rested t r m i n mine = elim (Bool-cases (is_unsettled r)) [
    | inr u ↦ inl (r, m, i, n, u)
    | inl u ↦ inr (λ a ma ai an h. let hit = mine u in ground arith)
  ]

  updated-Rested :
      (f : StepRow → StepRow) (steps : List StepRow)
      → ((s : StepRow) → ((f s).id ≡ s.id) × ((f s).fencing_token ≡ s.fencing_token))
      → steps ≡ update (owned c.step_id c.fencing_token) f d.steps
      → (t : StepRow) → In t steps
      → is_unsettled t ≡ false
      → Rested (open_attempt c.step_id c.fencing_token) d t
  updated-Rested f steps same e t m h =
      let (r, mr, er) = In-update-cases (owned c.step_id c.fencing_token) f d.steps (rw e at m) in
      settled-Rested t r mr (ground (arith, er, same r)) (ground (arith, er, same r))
        (λ u. ground (arith, er, h))

  failure-Rested :
      (f : Failure) (t : StepRow)
      → In t (published (complete_failure c f (at d ms))).steps
      → is_unsettled t ≡ false
      → Rested (open_attempt c.step_id c.fencing_token) d t
  failure-Rested f t m h = elim (Option-cases (find (owned c.step_id c.fencing_token) d.steps)) [
    | inl e ↦ let (steps, _, _) = failure_stale c f d ms e in rests_on _ d t (rw steps at m) h
    | inr (p, e) ↦ elim (Bool-cases (has_cancelled (job_with c.job_id d))) [
      | inl k ↦
          let (steps, _, _) = failure_cancelled c f d ms p e k in
          updated-Rested _ _ (λ s. (refl, refl)) steps t m h
      | inr k ↦ elim (Bool-cases (f.retryable && ltb c.attempt_count c.max_attempts)) [
        | inl again ↦
            let (steps, _, _) = failure_retry c f d ms p e k again in
            updated-Rested _ _ (λ s. (refl, refl)) steps t m h
        | inr again ↦
            let (steps, _, _) = failure_dead c f d ms p e k again in
            updated-Rested _ _ (λ s. (refl, refl)) steps t m h
      ]
    ]
  ]

  success-Rested :
      (output : Value) (t : StepRow)
      → IsIssued d c
      → In t (published (complete_success c output (at d ms))).steps
      → is_unsettled t ≡ false
      → Rested (open_attempt c.step_id c.fencing_token) d t
  unfolding completable
  success-Rested output t is m h =
      let done = completable c.step_id c.fencing_token d in
      elim (Option-cases (find done d.steps)) [
        | inl e ↦
            let (steps, _) = refused_same c output d ms v is e in rests_on _ d t (rw steps at m) h
        | inr (p, e) ↦
            let (steps, _, _) = success_done c output d ms p e in
            let (u, mu, eu) =
              In-update-cases (next_blocked c.job_id (c.seq + 1)) (unblock_row d.now) _
                (rw steps at m) in
            let (r, mr, er) = In-update-cases done (succeed_row d.now output) d.steps mu in
            settled-Rested t r mr (ground (arith, eu, er)) (ground (arith, eu, er))
              (λ w. ground (arith, eu, er, h, w))
      ]

  pub complete_failure-IsLogged :
      (f : Failure) → IsLogged (published (complete_failure c f (at d ms)))
  complete_failure-IsLogged f =
      closed-IsLogged d _ l c.step_id c.fencing_token (complete_failure-Keeps d ms v c f)
        (failure_attempts d ms c f) (failure-RanOn f) (failure-Rested f)

  pub complete_success-IsLogged :
      (output : Value) → IsIssued d c → IsLogged (published (complete_success c output (at d ms)))
  complete_success-IsLogged output is =
      closed-IsLogged d _ l c.step_id c.fencing_token (complete_success-Keeps d ms v c output is)
        (success_attempts d ms c output) (λ t. success-RanOn output t is)
        (λ t. success-Rested output t is)
