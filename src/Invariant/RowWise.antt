-- ===== src/Invariant/RowWise.antt =====
-- Changes of every row that leave the keys alone: the keys stay valid, and the rest of the invariant
-- is a matter of the rows before.
use platform_forge.Prelude.{
  ℕ, ◌<◌, ◌≡◌, ◌∙◌, sym, ap, inl, inr, refl, ◌==◌, true, none, some, map, arith, In, In-map,
  In-map-cases, find-map, Option-cases, subst, map-id,
}
use platform_forge.Models.{JobRow, StepRow, StepStatus, Db, is_active}
use platform_forge.Claims.Claim.{job_with}
use platform_forge.Invariant.{
  IsLeased, is_reached, is_live, fits, IsKeyed, Inv, IsOrdered, IsCoherent, IsProgressing,
}

pub record IsRowWise (d d' : Db) (F : StepRow → StepRow) (G : JobRow → JobRow) : Type 0 where
  pub steps : d'.steps ≡ map F d.steps
  pub jobs : d'.jobs ≡ map G d.jobs
  pub id : (s : StepRow) → (F s).id ≡ s.id
  pub job_id : (s : StepRow) → (F s).job_id ≡ s.job_id
  pub seq : (s : StepRow) → (F s).seq ≡ s.seq
  pub job : (j : JobRow) → (G j).id ≡ j.id
  pub job_name : (j : JobRow) → (G j).workflow_name ≡ j.workflow_name
  pub job_key : (j : JobRow) → (G j).idempotency_key ≡ j.idempotency_key

module _ {F : StepRow → StepRow} {G : JobRow → JobRow} (d d' : Db) (r : IsRowWise d d' F G) where
  -- A step of the new table is a changed old one.
  pub old_step : (s' : StepRow) → In s' d'.steps → (s : StepRow) × In s d.steps × (s' ≡ F s)
  old_step s' m = In-map-cases F d.steps (subst (In s') r.steps m)

  pub step_after : (s : StepRow) → In s d.steps → In (F s) d'.steps
  step_after s m = rw r.steps (In-map F m)

  pub job_after :
      (id : ℕ) → job_with id d' ≡ elim (job_with id d) [ none ↦ none | some j ↦ some (G j) ]
  unfolding job_with
  job_after id = rw r.jobs (find-map (λ j. j.id == id) G d.jobs (λ j. rw (r.job j) refl))

  -- A job that is found in the new table is a changed old one.
  pub old_job :
      (id : ℕ) (j' : JobRow)
      → job_with id d' ≡ some j'
      → (j : JobRow) × (job_with id d ≡ some j) × (j' ≡ G j)
  old_job id j' e = elim (Option-cases (job_with id d)) [
    | inl h ↦ absurd (ground (arith, job_after id))
    | inr (j, h) ↦ (j, h, ground (arith, job_after id))
  ]

  keyed_job_id :
      IsKeyed d → (j' k' : JobRow) → In j' d'.jobs → In k' d'.jobs → j'.id ≡ k'.id → j' ≡ k'
  keyed_job_id key j' k' m n e =
      let (j, mj, ej) = In-map-cases G d.jobs (subst (In j') r.jobs m) in
      let (k, mk, ek) = In-map-cases G d.jobs (subst (In k') r.jobs n) in
      let same : j ≡ k = key.job_id j k mj mk (cc (r.job j, r.job k, ej, ek, e)) in
      cc (ej, ek, same)

  keyed_job_key :
      IsKeyed d
      → (j' k' : JobRow) → In j' d'.jobs
      → In k' d'.jobs
      → j'.workflow_name ≡ k'.workflow_name
      → j'.idempotency_key ≡ k'.idempotency_key
      → j' ≡ k'
  keyed_job_key key j' k' m n e e' =
      let (j, mj, ej) = In-map-cases G d.jobs (subst (In j') r.jobs m) in
      let (k, mk, ek) = In-map-cases G d.jobs (subst (In k') r.jobs n) in
      let same : j ≡ k =
        key.job_key j k mj mk (cc (r.job_name j, r.job_name k, ej, ek, e))
          (cc (r.job_key j, r.job_key k, ej, ek, e')) in
      cc (ej, ek, same)

  keyed_id :
      IsKeyed d → (s' t' : StepRow) → In s' d'.steps → In t' d'.steps → s'.id ≡ t'.id → s' ≡ t'
  keyed_id k s' t' m n e =
      let (s, ms, es) = old_step s' m in
      let (t, mt, et) = old_step t' n in
      let same : s ≡ t = k.step_id s t ms mt (cc (r.id s, r.id t, es, et, e)) in cc (es, et, same)

  keyed_seq :
      IsKeyed d
      → (s' t' : StepRow) → In s' d'.steps
      → In t' d'.steps
      → s'.job_id ≡ t'.job_id
      → s'.seq ≡ t'.seq
      → s' ≡ t'
  keyed_seq k s' t' m n ej eq =
      let (s, ms, es) = old_step s' m in
      let (t, mt, et) = old_step t' n in
      let same : s ≡ t =
        k.step_seq s t ms mt (cc (r.job_id s, r.job_id t, es, et, ej))
          (cc (r.seq s, r.seq t, es, et, eq)) in
      cc (es, et, same)

  keyed_job :
      IsKeyed d → (s' : StepRow) → In s' d'.steps → (j : JobRow) × (job_with s'.job_id d' ≡ some j)
  keyed_job k s' m =
      let (s, ms, es) = old_step s' m in
      let (j, e) = k.has_job s ms in
      let at : s'.job_id ≡ s.job_id = ap (λ (x : StepRow). x.job_id) es ∙ r.job_id s in
      (G j, rw (at, job_after s.job_id, e) refl)

  keyed_previous :
      IsKeyed d
      → (s' : StepRow) (n : ℕ) → In s' d'.steps
      → 0 < n
      → n < s'.seq
      → (t : StepRow) × In t d'.steps × (t.job_id ≡ s'.job_id) × (t.seq ≡ n)
  keyed_previous k s' n m pos lt =
      let (s, ms, es) = old_step s' m in
      let at : s'.seq ≡ s.seq = ap (λ (x : StepRow). x.seq) es ∙ r.seq s in
      let (t, mt, ej, eq) = k.has_previous s n ms pos (omega arith) in
      (F t, step_after t mt, cc (r.job_id t, r.job_id s, ej, es), r.seq t ∙ eq)

  pub RowWise-IsKeyed : IsKeyed d → IsKeyed d'
  RowWise-IsKeyed k = record {
    job_id = keyed_job_id k;
    job_key = keyed_job_key k;
    step_id = keyed_id k;
    step_seq = keyed_seq k;
    has_job = keyed_job k;
    has_previous = keyed_previous k;
  }

  RowWise-leased :
      ((s : StepRow) → In s d.steps → IsLeased (F s))
      → (s' : StepRow) → In s' d'.steps
      → IsLeased s'
  RowWise-leased h s' m = let (s, ms, es) = old_step s' m in subst IsLeased (sym es) (h s ms)

  RowWise-IsOrdered :
      ((s t : StepRow)
        → In s d.steps
        → In t d.steps
        → s.job_id ≡ t.job_id
        → s.seq < t.seq
        → is_reached (F t).status ≡ true
        → (F s).status ≡ StepStatus.succeeded)
      → IsOrdered d'
  RowWise-IsOrdered h s' t' m n ej lt reached =
      let (s, ms, es) = old_step s' m in
      let (t, mt, et) = old_step t' n in
      let at : s'.seq ≡ s.seq = ap (λ (x : StepRow). x.seq) es ∙ r.seq s in
      let at' : t'.seq ≡ t.seq = ap (λ (x : StepRow). x.seq) et ∙ r.seq t in
      let hit : is_reached (F t).status ≡ true =
        cc (ap (λ (x : StepRow). is_reached x.status) et) in
      ap (λ (x : StepRow). x.status) es
      ∙ h s t ms mt (cc (r.job_id s, r.job_id t, es, et, ej)) (omega arith) hit

  RowWise-IsCoherent :
      ((j : JobRow) (s : StepRow)
        → In s d.steps
        → job_with s.job_id d ≡ some j
        → fits (G j).status (F s).status ≡ true)
      → IsCoherent d'
  RowWise-IsCoherent h j' s' m e =
      let (s, ms, es) = old_step s' m in
      let at : s'.job_id ≡ s.job_id = ap (λ (x : StepRow). x.job_id) es ∙ r.job_id s in
      let (j, ej, eg) = old_job s.job_id j' (rw at at e) in rw (es, eg) (h j s ms ej)

  RowWise-IsProgressing :
      ((id : ℕ) (j : JobRow)
        → job_with id d ≡ some j
        → is_active (G j).status ≡ true
        → (s : StepRow) × In s d.steps × (s.job_id ≡ id) × (is_live (F s).status ≡ true))
      → IsProgressing d'
  RowWise-IsProgressing h id j' e active =
      let (j, ej, eg) = old_job id j' e in
      let (s, ms, es, live) =
        h id j ej (ap (λ (x : JobRow). is_active x.status) (sym eg) ∙ active) in
      (F s, step_after s ms, r.job_id s ∙ es, live)

  -- The invariant after a row-wise change, from what the change does to each old row.
  pub RowWise-Inv :
      IsKeyed d
      → ((s : StepRow) → In s d.steps → IsLeased (F s))
      → ((s t : StepRow)
          → In s d.steps
          → In t d.steps
          → s.job_id ≡ t.job_id
          → s.seq < t.seq
          → is_reached (F t).status ≡ true
          → (F s).status ≡ StepStatus.succeeded)
      → ((j : JobRow) (s : StepRow)
          → In s d.steps
          → job_with s.job_id d ≡ some j
          → fits (G j).status (F s).status ≡ true)
      → ((id : ℕ) (j : JobRow)
          → job_with id d ≡ some j
          → is_active (G j).status ≡ true
          → (s : StepRow) × In s d.steps × (s.job_id ≡ id) × (is_live (F s).status ≡ true))
      → Inv d'
  RowWise-Inv k l o c p = record {
    keyed = RowWise-IsKeyed k;
    leased = RowWise-leased l;
    ordered = RowWise-IsOrdered o;
    coherent = RowWise-IsCoherent c;
    progressing = RowWise-IsProgressing p;
  }

-- The invariant is about the jobs and the steps alone.
pub same-Inv : (d d' : Db) → d'.steps ≡ d.steps → d'.jobs ≡ d.jobs → Inv d → Inv d'
same-Inv d d' es ej v =
    RowWise-Inv {F = λ s. s} {G = λ j. j} d d'
      (record {
        steps = es ∙ sym (map-id (λ s. s) d.steps (λ s. refl));
        jobs = ej ∙ sym (map-id (λ j. j) d.jobs (λ j. refl));
        id = λ s. refl;
        job_id = λ s. refl;
        seq = λ s. refl;
        job = λ j. refl;
        job_name = λ j. refl;
        job_key = λ j. refl;
      })
      v.keyed v.leased v.ordered (λ j s m e. v.coherent j s m e) v.progressing
