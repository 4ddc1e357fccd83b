-- ===== src/Invariant/Cancel.antt =====
-- A cancellation and a replay keep the invariant.
use native.Mathlib.Decide.{ℕ_discrete}
use platform_forge.Prelude.{
  ℕ, ◌≡◌, ◌<◌, ◌==◌, ◌&&◌, true, some, In, arith, changed, update, update-eq-map, ◌∙◌, sym,
}
use platform_forge.Models.{
  JobRow, StepRow, StepStatus, Db, is_active, is_dead_lettered, job_is_dead_lettered,
}
use platform_forge.Claims.Claim.{job_with}
use platform_forge.Claims.Claimed.{cancel_row}
use platform_forge.Claims.Cancel.{active_job, live_step, cancel_job_row, replay_row, resume_job}
use platform_forge.Invariant.{Inv, is_reached, is_live, fits}
use platform_forge.Invariant.RowWise.{RowWise-Inv}
use platform_forge.Invariant.Claim.{job_with-id}

module _ (d d' : Db) (job_id now : ℕ) (v : Inv d) where
  module _ (steps : d'.steps ≡ update (live_step job_id) (cancel_row now) d.steps)
      (jobs : d'.jobs ≡ update (active_job job_id) (cancel_job_row now) d.jobs) (k : JobRow)
      (found : job_with job_id d ≡ some k) (active : is_active k.status ≡ true) where
    abbrev F : StepRow → StepRow
    F = changed (live_step job_id) (cancel_row now)

    abbrev G : JobRow → JobRow
    G = changed (active_job job_id) (cancel_job_row now)

    cancel_ordered :
        (s t : StepRow)
        → In s d.steps
        → In t d.steps
        → s.job_id ≡ t.job_id
        → s.seq < t.seq
        → is_reached (F t).status ≡ true
        → (F s).status ≡ StepStatus.succeeded
    cancel_ordered s t ms mt e lt h = ground (arith, v.ordered s t ms mt e lt)

    cancel_coherent :
        (j : JobRow) (s : StepRow)
        → In s d.steps
        → job_with s.job_id d ≡ some j
        → fits (G j).status (F s).status ≡ true
    cancel_coherent j s ms e = ground (arith, v.coherent j s ms e, job_with-id s.job_id d j e)

    cancel_progressing :
        (id : ℕ) (j : JobRow)
        → job_with id d ≡ some j
        → is_active (G j).status ≡ true
        → (s : StepRow) × In s d.steps × (s.job_id ≡ id) × (is_live (F s).status ≡ true)
    cancel_progressing id j e a =
        let (s, ms, es, live) = v.progressing id j e (ground arith) in
        (s, ms, es, ground (arith, job_with-id id d j e))

    pub cancel-Inv : Inv d'
    cancel-Inv =
        RowWise-Inv {F = F} {G = G} d d'
          (record {
            steps = rw steps (update-eq-map _ _ _);
            jobs = rw jobs (update-eq-map _ _ _);
            id = λ s. ground arith;
            job_id = λ s. ground arith;
            seq = λ s. ground arith;
            job = λ j. ground arith;
            job_name = λ j. ground arith;
            job_key = λ j. ground arith;
          })
          v.keyed (λ s ms. ground (arith, v.leased s ms)) cancel_ordered cancel_coherent
          cancel_progressing

  module _ (p : StepRow) (m : In p d.steps) (at : p.job_id ≡ job_id)
      (dead : is_dead_lettered p.status ≡ true)
      (steps : d'.steps
        ≡ update (λ s. s.id == p.id && is_dead_lettered s.status) (replay_row now) d.steps)
      (jobs : d'.jobs
        ≡ update
            (λ j. j.id == job_id && job_is_dead_lettered j.status)
            (resume_job now)
            d.jobs) where
    abbrev replayed : StepRow → StepRow
    replayed = changed (λ s. s.id == p.id && is_dead_lettered s.status) (replay_row now)

    abbrev resumed : JobRow → JobRow
    resumed = changed (λ j. j.id == job_id && job_is_dead_lettered j.status) (resume_job now)

    replay_ordered :
        (s t : StepRow)
        → In s d.steps
        → In t d.steps
        → s.job_id ≡ t.job_id
        → s.seq < t.seq
        → is_reached (replayed t).status ≡ true
        → (replayed s).status ≡ StepStatus.succeeded
    replay_ordered s t ms mt e lt h = ground (arith, v.ordered s t ms mt e lt)

    -- A job has at most one dead-lettered step.
    only_dead :
        (s : StepRow) → In s d.steps → s.job_id ≡ job_id → is_dead_lettered s.status ≡ true → s ≡ p
    only_dead s ms e h =
        ground (arith, v.ordered s p ms m, v.ordered p s m ms, v.keyed.step_seq s p ms m)

    replay_coherent :
        (j : JobRow) (s : StepRow)
        → In s d.steps
        → job_with s.job_id d ≡ some j
        → fits (resumed j).status (replayed s).status ≡ true
    replay_coherent j s ms e = ground (
      arith,
      v.coherent j s ms e,
      v.coherent j p m,
      v.keyed.step_id s p ms m,
      only_dead s ms,
      job_with-id s.job_id d j e,
    )

    replay_progressing :
        (id : ℕ) (j : JobRow)
        → job_with id d ≡ some j
        → is_active (resumed j).status ≡ true
        → (s : StepRow) × In s d.steps × (s.job_id ≡ id) × (is_live (replayed s).status ≡ true)
    replay_progressing id j e a = elim (ℕ_discrete id job_id) [
      | yes same ↦ (p, m, at ∙ sym same, ground arith)
      | no other ↦
          let (s, ms, es, live) = v.progressing id j e (ground (arith, job_with-id id d j e)) in
          (s, ms, es, ground arith)
    ]

    pub replay-Inv : Inv d'
    replay-Inv =
        RowWise-Inv {F = replayed} {G = resumed} d d'
          (record {
            steps = rw steps (update-eq-map _ _ _);
            jobs = rw jobs (update-eq-map _ _ _);
            id = λ s. ground arith;
            job_id = λ s. ground arith;
            seq = λ s. ground arith;
            job = λ j. ground arith;
            job_name = λ j. ground arith;
            job_key = λ j. ground arith;
          })
          v.keyed (λ s ms. ground (arith, v.leased s ms)) replay_ordered replay_coherent
          replay_progressing
