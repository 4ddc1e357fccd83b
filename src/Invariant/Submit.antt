-- ===== src/Invariant/Submit.antt =====
-- A new job with its steps keeps the invariant.
use platform_forge.Claims.Submit.{has_key}
use platform_forge.Models.{JobStatus, StepRow, Db, JobRow}
use platform_forge.Invariant.Filled.{IsFilled}
use platform_forge.Invariant.{IsOrdered, IsProgressing, IsKeyed, IsCoherent, Inv, IsLeased, is_live}
use platform_forge.Claims.Claim.{job_with}
use native.Mathlib.Decide.{ℕ_discrete}
use platform_forge.Prelude.{
  ℕ, find-any, find-some, ◌==◌, inr, ◌<◌, if◌then◌else◌, ◌∙◌, ◌≢◌, false, ◌≡◌, insert, In, sym, any,
  inl, find-insert, arith, some, any-false, subst, In-insert-cases, ◌⊎◌, true, str_eq_iff,
}

module _ (d d' : Db) (v : Inv d) (j : JobRow) (n : ℕ) (more : 1 < n)
    (free : any (λ k. k.id == j.id) d.jobs ≡ false)
    (unused : any (has_key j.workflow_name j.idempotency_key) d.jobs ≡ false)
    (queued : j.status ≡ JobStatus.queued) (f : IsFilled d.steps j.id n d'.steps)
    (jobs : d'.jobs ≡ insert j d.jobs) where
  fresh_step : (s : StepRow) → In s d.steps → s.job_id ≢ j.id
  unfolding job_with
  fresh_step s m e =
      let (k, ek) = v.keyed.has_job s m in
      let (mk, hk) = find-some (λ k. k.id == s.job_id) k d.jobs ek in
      absurd (ground (arith, any-false (λ k. k.id == j.id) mk free))

  job_found : (id : ℕ) → job_with id d' ≡ (if id == j.id then some j else job_with id d)
  unfolding job_with
  job_found id = rw jobs (
      ground
        (arith, find-insert (λ k. k.id == id) j d.jobs, find-any (λ k. k.id == j.id) d.jobs free))

  -- A step is an old one, with its old job, or one of the new job.
  old_job : (s : StepRow) → In s d.steps → job_with s.job_id d' ≡ job_with s.job_id d
  old_job s m = ground (arith, job_found s.job_id, fresh_step s m)

  old_or_new : (k : JobRow) → In k d'.jobs → In k d.jobs ⊎ (k ≡ j)
  old_or_new k m = In-insert-cases d.jobs (subst (In k) jobs m)

  job_ids : (k l : JobRow) → In k d'.jobs → In l d'.jobs → k.id ≡ l.id → k ≡ l
  job_ids k l mk ml e = elim (old_or_new k mk) [
    | inl k_old ↦ elim (old_or_new l ml) [
      | inl ol ↦ v.keyed.job_id k l k_old ol e
      | inr nl ↦ absurd (ground (arith, any-false (λ k. k.id == j.id) k_old free))
    ]
    | inr nk ↦ elim (old_or_new l ml) [
      | inl ol ↦ absurd (ground (arith, any-false (λ k. k.id == j.id) ol free))
      | inr nl ↦ cc
    ]
  ]

  unlike :
      (k : JobRow)
      → In k d.jobs
      → j.workflow_name ≡ k.workflow_name
      → j.idempotency_key ≡ k.idempotency_key
      → ⊥
  unlike k m e e' = ground (
    arith,
    any-false (has_key j.workflow_name j.idempotency_key) m unused,
    str_eq_iff k.workflow_name j.workflow_name,
    str_eq_iff k.idempotency_key j.idempotency_key,
  )

  job_keys :
      (k l : JobRow)
      → In k d'.jobs
      → In l d'.jobs
      → k.workflow_name ≡ l.workflow_name
      → k.idempotency_key ≡ l.idempotency_key
      → k ≡ l
  job_keys k l mk ml e e' = elim (old_or_new k mk) [
    | inl k_old ↦ elim (old_or_new l ml) [
      | inl ol ↦ v.keyed.job_key k l k_old ol e e'
      | inr nl ↦ absurd (unlike k k_old (cc) (cc))
    ]
    | inr nk ↦ elim (old_or_new l ml) [ inl ol ↦ absurd (unlike l ol (cc) (cc)) | inr nl ↦ cc ]
  ]

  keyed : IsKeyed d'
  keyed = record {
    job_id = job_ids;
    job_key = job_keys;
    step_id = f.by_id;
    step_seq = f.by_seq;
    has_job = λ s m. elim (f.cases s m) [
      | inl o ↦ let (k, e) = v.keyed.has_job s o in (k, old_job s o ∙ e)
      | inr new ↦ (j, ground (arith, job_found s.job_id, new.job_id))
    ];
    has_previous = λ s m ms p lt. elim (f.cases s ms) [
      | inl o ↦ let (t, mt, tj, ts) = v.keyed.has_previous s m o p lt in (t, f.kept t mt, tj, ts)
      | inr new ↦
          let (t, mt, tj, ts) = f.numbered m p (omega (arith, new.below)) in
          (t, mt, tj ∙ sym new.job_id, ts)
    ];
  }

  leased : (s : StepRow) → In s d'.steps → IsLeased s
  leased s m = elim (f.cases s m) [
    | inl o ↦ v.leased s o
    | inr new ↦ ground (arith, new.status, new.unleased)
  ]

  ordered : IsOrdered d'
  ordered s t ms mt e lt h = elim (f.cases s ms) [
    | inl os ↦ elim (f.cases t mt) [
      | inl ot ↦ v.ordered s t os ot e lt h
      | inr nt ↦ absurd (fresh_step s os (e ∙ nt.job_id))
    ]
    | inr ns ↦ elim (f.cases t mt) [
      | inl ot ↦ absurd (fresh_step t ot (sym e ∙ ns.job_id))
      | inr nt ↦ absurd (ground (arith, nt.status, ns.positive))
    ]
  ]

  coherent : IsCoherent d'
  coherent k s m e = elim (f.cases s m) [
    | inl o ↦ v.coherent k s o (sym (old_job s o) ∙ e)
    | inr new ↦ ground (arith, job_found s.job_id, new.job_id, new.status)
  ]

  -- The first step of the new job is pending.
  first_live : (t : StepRow) → In t d'.steps → t.job_id ≡ j.id → t.seq ≡ 1 → is_live t.status ≡ true
  first_live t m e first = elim (f.cases t m) [
    | inl o ↦ absurd (fresh_step t o e)
    | inr new ↦ ground (arith, new.status)
  ]

  progressing : IsProgressing d'
  progressing id k e a = elim (ℕ_discrete id j.id) [
    | yes same ↦
        let (t, mt, tj, ts) = f.numbered 1 (omega arith) more in
        (t, mt, tj ∙ sym same, first_live t mt tj ts)
    | no other ↦
        let (s, ms, es, live) = v.progressing id k (ground (arith, job_found id)) a in
        (s, f.kept s ms, es, live)
  ]

  pub submit-Inv : Inv d'
  submit-Inv = record {
    keyed = keyed;
    leased = leased;
    ordered = ordered;
    coherent = coherent;
    progressing = progressing;
  }
