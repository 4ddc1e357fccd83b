-- ===== src/Invariant/Claim.antt =====
-- A claim keeps the invariant.
use platform_forge.Prelude.{
  ℕ, ◌≡◌, ◌<◌, ◌==◌, ◌&&◌, true, some, String, In, arith, changed, update, update-eq-map, find-some,
}
use platform_forge.Models.{JobRow, StepRow, StepStatus, Db, is_active, job_is_queued}
use platform_forge.Claims.Claim.{job_with, claimable, lease_row, start_job}
use platform_forge.Invariant.{Inv, IsLeased, is_reached, is_live, fits}
use platform_forge.Invariant.RowWise.{IsRowWise, RowWise-Inv}

pub job_with-id : (id : ℕ) (d : Db) (j : JobRow) → job_with id d ≡ some j → j.id ≡ id
unfolding job_with
job_with-id id d j e = let h = find-some (λ j. j.id == id) j d.jobs e in ground arith

pub job_with-some :
    (id : ℕ) (d : Db) (j : JobRow) → job_with id d ≡ some j → In j d.jobs × (j.id ≡ id)
unfolding job_with
job_with-some id d j e = let (m, h) = find-some (λ j. j.id == id) j d.jobs e in (m, ground arith)

module _ (d d' : Db) (p : StepRow) (worker : String) (ttl : ℕ) where
  abbrev F : StepRow → StepRow
  F = changed (λ s. s.id == p.id) (lease_row d.now worker ttl)

  abbrev G : JobRow → JobRow
  G = changed (λ j. j.id == p.job_id && job_is_queued j.status) (start_job d.now)

  claim-IsRowWise :
      d'.steps ≡ update (λ s. s.id == p.id) (lease_row d.now worker ttl) d.steps
      → d'.jobs ≡ update (λ j. j.id == p.job_id && job_is_queued j.status) (start_job d.now) d.jobs
      → IsRowWise d d' F G
  claim-IsRowWise es ej = record {
    steps = rw es (update-eq-map _ _ _);
    jobs = rw ej (update-eq-map _ _ _);
    id = λ s. ground arith;
    job_id = λ s. ground arith;
    seq = λ s. ground arith;
    job = λ j. ground arith;
    job_name = λ j. ground arith;
    job_key = λ j. ground arith;
  }

  module _ (v : Inv d) (m : In p d.steps) (ready : claimable d p ≡ true) where
    leased : (s : StepRow) → In s d.steps → IsLeased (F s)
    leased s ms = ground (arith, v.leased s ms)

    ordered :
        (s t : StepRow)
        → In s d.steps
        → In t d.steps
        → s.job_id ≡ t.job_id
        → s.seq < t.seq
        → is_reached (F t).status ≡ true
        → (F s).status ≡ StepStatus.succeeded
    unfolding claimable
    ordered s t ms mt ej lt reached =
        ground
          (arith, v.ordered s t ms mt ej lt, v.keyed.step_id s p ms m, v.keyed.step_id t p mt m)

    coherent :
        (j : JobRow) (s : StepRow)
        → In s d.steps
        → job_with s.job_id d ≡ some j
        → fits (G j).status (F s).status ≡ true
    unfolding claimable
    coherent j s ms e =
        ground (arith, v.coherent j s ms e, v.keyed.step_id s p ms m, job_with-id s.job_id d j e)

    progressing :
        (id : ℕ) (j : JobRow)
        → job_with id d ≡ some j
        → is_active (G j).status ≡ true
        → (s : StepRow) × In s d.steps × (s.job_id ≡ id) × (is_live (F s).status ≡ true)
    progressing id j e active =
        let (s, ms, es, live) = v.progressing id j e (ground arith) in (s, ms, es, ground arith)

    pub claim-Inv :
        d'.steps ≡ update (λ s. s.id == p.id) (lease_row d.now worker ttl) d.steps
        → d'.jobs
          ≡ update (λ j. j.id == p.job_id && job_is_queued j.status) (start_job d.now) d.jobs
        → Inv d'
    claim-Inv es ej =
        RowWise-Inv d d' (claim-IsRowWise es ej) v.keyed leased ordered coherent progressing
