-- ===== src/Invariant/Fail.antt =====
-- A renewed lease, a retry and a dead letter keep the invariant.
use platform_forge.Prelude.{
  [], ◌≢◌, ℕ, ◌≡◌, ◌<◌, ◌==◌, ◌&&◌, Bool, true, refl, some, String, In, arith, changed, update,
  update-eq-map, map, ◌⊎◌, sym, List, ◌∷◌,
}
use platform_forge.Models.{JobRow, StepRow, StepStatus, Db, is_active, is_running}
use platform_forge.Claims.Claim.{job_with}
use platform_forge.Claims.Claimed.{owned}
use platform_forge.Claims.Heartbeat.{renew_row}
use platform_forge.Claims.Complete.{retry_row, dead_letter_row, dead_letter_job}
use platform_forge.Invariant.{Inv, is_reached, is_live, fits}
use platform_forge.Invariant.RowWise.{RowWise-Inv}
use platform_forge.Invariant.Claim.{job_with-id}

abbrev same_job : JobRow → JobRow
same_job j = j

map-same_job : (js : List JobRow) → map same_job js ≡ js
map-same_job [] = refl
map-same_job (j ∷ js) = rw (map-same_job js)

-- A change of the steps alone that keeps the status of every step and whether it has a lease.
module _ (d d' : Db) (q : StepRow → Bool) (now ttl : ℕ) (v : Inv d)
    (steps : d'.steps ≡ update q (renew_row now ttl) d.steps) (jobs : d'.jobs ≡ d.jobs)
    (runs : (s : StepRow) → q s ≡ true → is_running s.status ≡ true) where
  abbrev F : StepRow → StepRow
  F = changed q (renew_row now ttl)

  status_kept : (s : StepRow) → (F s).status ≡ s.status
  status_kept s = ground arith

  pub renew-Inv : Inv d'
  renew-Inv =
      RowWise-Inv {F = F} {G = same_job} d d'
        (record {
          steps = rw steps (update-eq-map _ _ _);
          jobs = rw jobs (sym (map-same_job d.jobs));
          id = λ s. ground arith;
          job_id = λ s. ground arith;
          seq = λ s. ground arith;
          job = λ j. refl;
          job_name = λ j. refl;
          job_key = λ j. refl;
        })
        v.keyed (λ s m. ground (arith, v.leased s m, runs s))
        (λ s t m n e lt h. rw (status_kept s) (v.ordered s t m n e lt (rw (status_kept t) at h)))
        (λ j s m e. rw (status_kept s) (v.coherent j s m e))
        (λ id j e a.
          let (s, m, es, live) = v.progressing id j e a in (s, m, es, rw (status_kept s) live))

-- The step `p` that a worker owns fails.
module _ (d d' : Db) (p : StepRow) (step_id token now : ℕ) (v : Inv d) (m : In p d.steps)
    (hit : owned step_id token p ≡ true) where
  only_p : (s : StepRow) → In s d.steps → owned step_id token s ≡ true → s ≡ p
  only_p s ms h = v.keyed.step_id s p ms m (ground arith)

  module _ (delay : ℕ) (error : String)
      (steps : d'.steps ≡ update (owned step_id token) (retry_row now delay error) d.steps)
      (jobs : d'.jobs ≡ d.jobs) where
    abbrev retried : StepRow → StepRow
    retried = changed (owned step_id token) (retry_row now delay error)

    retried-cases :
        (s : StepRow)
        → In s d.steps
        → ((s ≡ p) × ((retried s).status ≡ StepStatus.pending)) ⊎ ((retried s).status ≡ s.status)
    retried-cases s ms = ground (arith, only_p s ms)

    retry_ordered :
        (s t : StepRow)
        → In s d.steps
        → In t d.steps
        → s.job_id ≡ t.job_id
        → s.seq < t.seq
        → is_reached (retried t).status ≡ true
        → (retried s).status ≡ StepStatus.succeeded
    retry_ordered s t ms mt e lt h =
        ground (arith, v.ordered s t ms mt e lt, only_p s ms, only_p t mt)

    retry_coherent :
        (j : JobRow) (s : StepRow)
        → In s d.steps
        → job_with s.job_id d ≡ some j
        → fits j.status (retried s).status ≡ true
    retry_coherent j s ms e = ground (arith, v.coherent j s ms e)

    retry_progressing :
        (id : ℕ) (j : JobRow)
        → job_with id d ≡ some j
        → is_active j.status ≡ true
        → (s : StepRow) × In s d.steps × (s.job_id ≡ id) × (is_live (retried s).status ≡ true)
    retry_progressing id j e a =
        let (s, ms, es, live) = v.progressing id j e a in (s, ms, es, ground arith)

    pub retry-Inv : Inv d'
    retry-Inv =
        RowWise-Inv {F = retried} {G = same_job} d d'
          (record {
            steps = rw steps (update-eq-map _ _ _);
            jobs = rw jobs (sym (map-same_job d.jobs));
            id = λ s. ground arith;
            job_id = λ s. ground arith;
            seq = λ s. ground arith;
            job = λ j. refl;
            job_name = λ j. refl;
            job_key = λ j. refl;
          })
          v.keyed (λ s ms. ground (arith, v.leased s ms)) retry_ordered retry_coherent
          retry_progressing

  module _ (error : String)
      (steps : d'.steps ≡ update (owned step_id token) (dead_letter_row now error) d.steps)
      (jobs : d'.jobs
        ≡ update (λ j. j.id == p.job_id && is_active j.status) (dead_letter_job now) d.jobs) where
    abbrev buried : StepRow → StepRow
    buried = changed (owned step_id token) (dead_letter_row now error)

    abbrev buried_job : JobRow → JobRow
    buried_job = changed (λ j. j.id == p.job_id && is_active j.status) (dead_letter_job now)

    buried_ordered :
        (s t : StepRow)
        → In s d.steps
        → In t d.steps
        → s.job_id ≡ t.job_id
        → s.seq < t.seq
        → is_reached (buried t).status ≡ true
        → (buried s).status ≡ StepStatus.succeeded
    buried_ordered s t ms mt e lt h =
        ground (arith, v.ordered s t ms mt e lt, only_p s ms, only_p t mt)

    -- The other steps of the job have succeeded, or are still blocked.
    others :
        (j : JobRow) (s : StepRow)
        → In s d.steps
        → job_with s.job_id d ≡ some j
        → s.job_id ≡ p.job_id
        → s.id ≢ p.id
        → (s.status ≡ StepStatus.succeeded) ⊎ (s.status ≡ StepStatus.blocked)
    others j s ms e same other = ground (
      arith,
      v.coherent j s ms e,
      v.coherent j p m,
      v.ordered s p ms m,
      v.ordered p s m ms,
      v.keyed.step_seq s p ms m,
    )

    buried_coherent :
        (j : JobRow) (s : StepRow)
        → In s d.steps
        → job_with s.job_id d ≡ some j
        → fits (buried_job j).status (buried s).status ≡ true
    buried_coherent j s ms e = ground (
      arith,
      v.coherent j s ms e,
      v.coherent j p m,
      only_p s ms,
      v.keyed.step_id s p ms m,
      others j s ms e,
      job_with-id s.job_id d j e,
    )

    buried_progressing :
        (id : ℕ) (j : JobRow)
        → job_with id d ≡ some j
        → is_active (buried_job j).status ≡ true
        → (s : StepRow) × In s d.steps × (s.job_id ≡ id) × (is_live (buried s).status ≡ true)
    buried_progressing id j e a =
        let (s, ms, es, live) = v.progressing id j e (ground arith) in
        (s, ms, es, ground (arith, only_p s ms, job_with-id id d j e))

    pub dead_letter-Inv : Inv d'
    dead_letter-Inv =
        RowWise-Inv {F = buried} {G = buried_job} d d'
          (record {
            steps = rw steps (update-eq-map _ _ _);
            jobs = rw jobs (update-eq-map _ _ _);
            id = λ s. ground arith;
            job_id = λ s. ground arith;
            seq = λ s. ground arith;
            job = λ j. ground arith;
            job_name = λ j. ground arith;
            job_key = λ j. ground arith;
          })
          v.keyed (λ s ms. ground (arith, v.leased s ms)) buried_ordered buried_coherent
          buried_progressing
