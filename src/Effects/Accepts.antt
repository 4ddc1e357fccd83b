-- ===== src/Effects/Accepts.antt =====
-- A submit that no constraint refuses.
use platform_forge.Invariant.Claim.{job_with-some}
use platform_forge.Metrics.{Metric}
use platform_forge.Effects.{at}
use platform_forge.Effects.Submit.{with_row}
use platform_forge.Effects.SubmitLaws.{with_job}
use platform_forge.Registry.{Step, Workflow, get}
use platform_forge.Claims.Submit.{
  clashes, insert_step, insert_steps, new_step, new_job, has_key, submit_new, insert_job,
  submit_existing, char_length, submit_job,
}
use platform_forge.Invariant.{Inv}
use platform_forge.Store.{Session, Error}
use platform_forge.Models.{StepRow, JobRow, Db, Value}
use platform_forge.Prelude.{
  ℕ, ◌≡◌, ◌≢◌, In, List, [], ◌∷◌, String, suc, here, there, ok, err, arith, refl, ◌<◌, ◌≤◌, inr,
  inl, str_eq_iff, In-insert-cases, false, any, any-true, Bool, Bool-cases, find, any-In, find-some,
  ◌==◌, Option-cases, find-none, some,
}

-- Steps that the constraints of their table allow: an attempt each at least, and no two of one name.
abbrev pub IsInsertable {ℓ} : {H : Type ℓ} → List (Step H) → Type ℓ
IsInsertable [] = Unit
IsInsertable (step ∷ rest) =
    (1 ≤ step.max_attempts)
    × ((other : Step _) → In other rest → step.name ≢ other.name)
    × IsInsertable rest

any-none {ℓ} :
    {A : Type ℓ} (q : A → Bool) (xs : List A) → ((x : A) → In x xs → q x ≡ false) → any q xs ≡ false
any-none q xs out = elim (Bool-cases (any q xs)) [
  | inr f ↦ f
  | inl t ↦ let (x, m, h) = any-true q xs t in absurd (ground (arith, out x m, h))
]

module _ {ℓ} {H : Type ℓ} (uuid4 : ℕ → ℕ) (distinct : (j k : ℕ) → uuid4 j ≡ uuid4 k → j ≡ k)
    (id : ℕ) where
  -- No step from the number `n` on clashes with the row.
  pub record IsClear (n : ℕ) (steps : List (Step H)) (r : StepRow) : Type ℓ where
    pub ids : (k : ℕ) → n ≤ k → r.id ≢ uuid4 k
    pub seqs : r.job_id ≡ id → r.seq < n
    pub names : r.job_id ≡ id → (step : Step H) → In step steps → r.name ≢ step.name

  no_clash :
      (n now : ℕ) (step : Step H) (rest : List (Step H)) (rows : List StepRow)
      → ((r : StepRow) → In r rows → IsClear n (step ∷ rest) r)
      → any (clashes (new_step now (uuid4 n) id n step)) rows ≡ false
  no_clash n now step rest rows clear =
      let q : StepRow → Bool = clashes (new_step now (uuid4 n) id n step) in
      elim (Bool-cases (any q rows)) [
        | inr f ↦ f
        | inl t ↦
            let (r, m, h) = any-true q rows t in
            let c = clear r m in
            elim (Bool-cases (r.job_id == id)) [
              | inl j ↦
                  let e : r.job_id ≡ id = ground arith in
                  absurd (
                    ground (
                      arith,
                      c.ids n (omega arith),
                      c.seqs e,
                      c.names e step here,
                      str_eq_iff r.name step.name,
                      h,
                    ))
              | inr j ↦ absurd (ground (arith, c.ids n (omega arith), h))
            ]
      ]

  -- The loop that inserts the steps does not raise.
  pub inserts_well :
      (n : ℕ) (steps : List (Step H)) (s : Session)
      → 0 < n
      → IsInsertable steps
      → ((r : StepRow) → In r s.work.steps → IsClear n steps r)
      → (insert_steps uuid4 id n steps s).0 ≡ ok tt
  unfolding insert_steps insert_step
  inserts_well n [] s pos proper clear = refl
  inserts_well n (step ∷ rest) s pos (tries, differ, proper) clear =
      let row : StepRow = new_step s.work.now (uuid4 n) id n step in
      let free = no_clash n s.work.now step rest s.work.steps clear in
      let next = inserts_well (suc n) rest (with_row row s) (omega arith) proper (λ r m.
        elim (In-insert-cases s.work.steps m) [
          | inl old ↦
              let c = clear r old in
              record {
                ids = λ k h. c.ids k (omega arith);
                seqs = λ e. omega (arith, c.seqs e);
                names = λ e x mx. c.names e x (there mx);
              }
          | inr new ↦ record {
            ids =
                λ k h e. let same = distinct n k (ground (arith, new, e)) in omega (arith, same, h);
            seqs = λ e. ground (arith, new);
            names = λ e x mx y. differ x mx (ground (arith, new, y));
          }
        ]) in
      ground (arith, free, next)

module _ {ℓ} {H : Type ℓ} (uuid4 : ℕ → ℕ) (registry : List (Workflow H)) (name key : String)
    (input : Value) (d : Db) (ms : List Metric) (v : Inv d) where
  -- Where ids are new and the workflow is proper, a submit with a key of an allowed length does not
  -- raise.
  pub submits_well :
      (wf : Workflow H) (e : Error)
      → ((j k : ℕ) → uuid4 j ≡ uuid4 k → j ≡ k)
      → ((j : JobRow) → In j d.jobs → j.id ≢ uuid4 0)
      → ((s : StepRow) → In s d.steps → (k : ℕ) → s.id ≢ uuid4 k)
      → get registry name ≡ some wf
      → IsInsertable wf.steps
      → 1 ≤ char_length key
      → char_length key ≤ 200
      → (submit_job uuid4 registry name key input (at d ms)).0 ≢ err e
  unfolding submit_job insert_job submit_new submit_existing
  submits_well wf e distinct new_job_id new_step_id w proper low high h =
      let job : JobRow = new_job d.now (uuid4 0) name key input in
      let free : any (λ (j : JobRow). j.id == uuid4 0) d.jobs ≡ false =
        any-none (λ (j : JobRow). j.id == uuid4 0) d.jobs (λ j m. ground (arith, new_job_id j m)) in
      let fine =
        inserts_well uuid4 distinct (uuid4 0) 1 wf.steps (with_job d ms job) (omega arith) proper
          (λ s m.
            let (j, ej) = v.keyed.has_job s m in
            let (mj, hj) = job_with-some s.job_id d j ej in
            record {
              ids = λ k _. new_step_id s m k;
              seqs = λ q. absurd (new_job_id j mj (ground arith));
              names = λ q. absurd (new_job_id j mj (ground arith));
            }) in
      elim (Option-cases (find (has_key name key) d.jobs)) [
        | inl n ↦
            let unused =
              any-none (has_key name key) d.jobs (λ j m. find-none (has_key name key) m n) in
            absurd (ground (arith, w, free, fine, unused))
        | inr (j, ej) ↦
            let (m, hit) = find-some (has_key name key) j d.jobs ej in
            let used = any-In (has_key name key) m hit in absurd (ground (arith, w, used, ej))
      ]
