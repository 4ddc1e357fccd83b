-- ===== src/Invariant/Succeed.antt =====
-- A successful completion keeps the invariant: it unblocks the next step, or ends the job.
use native.Mathlib.Decide.{dec_lt, ℕ_discrete}
use platform_forge.Prelude.{
  ℕ, sym, map, any-true, In-update-cases, update-update-eq-map, ◌∙◌, In-update, any, any-false,
  refl, ◌+◌, ◌≡◌, ◌<◌, ◌==◌, ◌&&◌, not, Bool, true, false, some, In, arith, changed, update,
  Bool-cases, inl, inr, List, ◌⊎◌,
}
use platform_forge.Models.{
  Value, JobRow, StepRow, StepStatus, Db, is_succeeded, job_is_running, is_active,
}
use platform_forge.Claims.Claim.{job_with}
use platform_forge.Claims.Claimed.{ClaimedStep}
use platform_forge.Claims.Complete.{completable, succeed_row, next_blocked, unblock_row, finish_job}
use platform_forge.Invariant.{Inv, IsLeased, is_reached, is_live, fits}
use platform_forge.Invariant.RowWise.{RowWise-Inv}
use platform_forge.Invariant.Claim.{job_with-id}

module _ (d : Db) (c : ClaimedStep) (output : Value) where
  abbrev done : StepRow → Bool
  done = completable c.step_id c.fencing_token d

  abbrev steps_after : List StepRow
  steps_after = update done (succeed_row d.now output) d.steps

  abbrev next : StepRow → Bool
  next = next_blocked c.job_id (c.seq + 1)

  abbrev unsucceeded : StepRow → Bool
  unsucceeded s = s.job_id == c.job_id && not (is_succeeded s.status)

  abbrev F : StepRow → StepRow
  F s = changed next (unblock_row d.now) (changed done (succeed_row d.now output) s)

  -- The job ends if `over`.
  abbrev G : Bool → JobRow → JobRow
  G over = changed (λ j. j.id == c.job_id && job_is_running j.status && over) (finish_job d.now)

  module _ (p : StepRow) (v : Inv d) (m : In p d.steps) (hit : done p ≡ true)
      (ej : p.job_id ≡ c.job_id) (eq : p.seq ≡ c.seq) where
    leased : (s : StepRow) → In s d.steps → IsLeased (F s)
    unfolding completable
    leased s ms = ground (arith, v.leased s ms)

    p_runs : p.status ≡ StepStatus.running
    unfolding completable
    p_runs = ground arith

    only_p : (s : StepRow) → In s d.steps → done s ≡ true → s ≡ p
    unfolding completable
    only_p s ms h = v.keyed.step_id s p ms m (ground arith)

    p_job_runs : (j : JobRow) → job_with p.job_id d ≡ some j → job_is_running j.status ≡ true
    p_job_runs j e = ground (arith, v.coherent j p m e, p_runs)

    -- What comes after the completed step in its job is blocked.
    later_blocked :
        (s : StepRow)
        → In s d.steps
        → s.job_id ≡ c.job_id
        → p.seq < s.seq
        → (j : JobRow) → job_with s.job_id d ≡ some j
        → s.status ≡ StepStatus.blocked
    later_blocked s ms es lt j e =
        ground (arith, v.ordered p s m ms, v.coherent j s ms e, p_runs, p_job_runs j)

    earlier_succeeded :
        (s : StepRow)
        → In s d.steps
        → s.job_id ≡ c.job_id
        → s.seq < p.seq
        → s.status ≡ StepStatus.succeeded
    earlier_succeeded s ms es lt = ground (arith, v.ordered s p ms m, p_runs)

    -- How the status of a step changes.
    F-cases :
        (s : StepRow)
        → In s d.steps
        → ((s ≡ p) × ((F s).status ≡ StepStatus.succeeded))
          ⊎ ((done s ≡ false) × (next s ≡ true) × ((F s).status ≡ StepStatus.pending))
          ⊎ ((done s ≡ false) × (next s ≡ false) × ((F s).status ≡ s.status))
    F-cases s ms = elim (Bool-cases (done s)) [
      | inl h ↦ let same : s ≡ p = only_p s ms h in inl (same, ground arith)
      | inr h ↦ elim (Bool-cases (next s)) [
        | inl n ↦ inr (inl (h, n, ground arith))
        | inr n ↦ inr (inr (h, n, ground arith))
      ]
    ]

    ordered :
        (s t : StepRow)
        → In s d.steps
        → In t d.steps
        → s.job_id ≡ t.job_id
        → s.seq < t.seq
        → is_reached (F t).status ≡ true
        → (F s).status ≡ StepStatus.succeeded
    ordered s t ms mt es lt reached = elim (F-cases s ms) [
      | inl (_, succeeded) ↦ succeeded
      | inr rest ↦ ground (
        arith,
        rest,
        hit,
        F-cases t mt,
        v.ordered s t ms mt es lt,
        earlier_succeeded s ms,
        v.keyed.step_seq s p ms m,
      )
    ]

    -- A job ends only when every other step has succeeded.
    finished :
        any unsucceeded steps_after ≡ false
        → (s : StepRow) → In s d.steps
        → done s ≡ false
        → s.job_id ≡ c.job_id
        → s.status ≡ StepStatus.succeeded
    finished all s ms other es =
        let kept : In s steps_after =
          rw (← unchanged) (In-update done (succeed_row d.now output) ms) in
        ground (arith, any-false unsucceeded kept all)
      where
        unchanged : changed done (succeed_row d.now output) s ≡ s
        unchanged = rw other refl

    coherent :
        (over : Bool)
        → (over ≡ true → any unsucceeded steps_after ≡ false)
        → (j : JobRow) (s : StepRow) → In s d.steps
        → job_with s.job_id d ≡ some j
        → fits (G over j).status (F s).status ≡ true
    coherent over all j s ms e = ground (
      arith,
      F-cases s ms,
      v.coherent j s ms e,
      p_job_runs j,
      λ (h : over ≡ true). finished (all h) s ms,
      job_with-id s.job_id d j e,
    )

    -- The step that `next` finds is the one to run now.
    next_live :
        (u : StepRow)
        → In u d.steps
        → next u ≡ true
        → (s : StepRow) × In s d.steps × (s.job_id ≡ c.job_id) × (is_live (F s).status ≡ true)
    next_live u mu h = (u, mu, ground arith, ground (arith, F-cases u mu, p_runs))

    -- Where some other step of the job has not succeeded, `next` finds one.
    has_next :
        (t : StepRow)
        → In t d.steps
        → done t ≡ false
        → t.job_id ≡ c.job_id
        → is_succeeded t.status ≡ false
        → (u : StepRow) × In u d.steps × (next u ≡ true)
    has_next t mt other et left =
        let (j, e) = v.keyed.has_job t mt in
        let after : p.seq < t.seq =
          ground (arith, earlier_succeeded t mt et, v.keyed.step_seq t p mt m, hit) in
        elim (dec_lt (p.seq + 1) t.seq) [
          | yes gap ↦
              let (u, mu, eu, su) = v.keyed.has_previous t (p.seq + 1) mt (omega arith) gap in
              let (k, ek) = v.keyed.has_job u mu in
              (u, mu, ground (arith, later_blocked u mu (eu ∙ et) (omega arith) k ek))
          | no tight ↦ (t, mt, ground (arith, later_blocked t mt et after j e))
        ]

    progressing :
        (over : Bool)
        → (over ≡ false → (u : StepRow) × In u d.steps × (next u ≡ true))
        → (id : ℕ) (j : JobRow) → job_with id d ≡ some j
        → is_active (G over j).status ≡ true
        → (s : StepRow) × In s d.steps × (s.job_id ≡ id) × (is_live (F s).status ≡ true)
    progressing over left id j e active = elim (ℕ_discrete id c.job_id) [
      | yes same ↦
          let e' : job_with p.job_id d ≡ some j = rw (ej, ← same) e in
          let on : over ≡ false = ground (arith, p_job_runs j e', job_with-id id d j e) in
          let (u, mu, h) = left on in
          let (s, ms, es, live) = next_live u mu h in (s, ms, es ∙ sym same, live)
      | no other ↦
          let (s, ms, es, live) = v.progressing id j e (ground (arith, job_with-id id d j e)) in
          (s, ms, es, ground (arith, F-cases s ms))
    ]

    -- A step that is left when the job does not end.
    pub left_over :
        any unsucceeded steps_after ≡ true → (u : StepRow) × In u d.steps × (next u ≡ true)
    left_over h =
        let (x, mx, open_x) = any-true unsucceeded steps_after h in
        let (t, mt, et) = In-update-cases done (succeed_row d.now output) d.steps mx in
        has_next t mt (ground arith) (ground arith) (ground arith)

    -- The job ends, or a step is left to run.
    pub succeed-Inv :
        (d' : Db) (over : Bool)
        → d'.steps ≡ update next (unblock_row d.now) steps_after
        → d'.jobs ≡ map (G over) d.jobs
        → (over ≡ true → any unsucceeded steps_after ≡ false)
        → (over ≡ false → (u : StepRow) × In u d.steps × (next u ≡ true))
        → Inv d'
    unfolding completable
    succeed-Inv d' over es jobs all left =
        RowWise-Inv {F = F} {G = G over} d d'
          (record {
            steps = rw es (update-update-eq-map _ _ _ _ _);
            jobs = jobs;
            id = λ s. ground arith;
            job_id = λ s. ground arith;
            seq = λ s. ground arith;
            job = λ j. ground arith;
            job_name = λ j. ground arith;
            job_key = λ j. ground arith;
          })
          v.keyed leased ordered (coherent over all) (progressing over left)
