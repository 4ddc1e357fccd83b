-- ===== src/Attempts/Granted.antt =====
-- A claim keeps the log of the leases: it logs its own under a token that was never logged.
use platform_forge.Metrics.{Metric}
use platform_forge.Durable.Calls.{claim_step-Keeps}
use platform_forge.Invariant.{Inv}
use platform_forge.Effects.{at, published}
use platform_forge.Claims.Claim.{lease_row, claim_step, job_with, picked}
use platform_forge.Effects.Claim.{claim_tables, picked-claimable, claim_none}
use platform_forge.Attempts.{IsLogged, IsOpen, is_unsettled}
use platform_forge.Attempts.Issues.{claim_attempts, first_attempt}
use platform_forge.Models.{Db, AttemptRow, StepRow, is_running, JobRow, is_started}
use platform_forge.Prelude.{
  ℕ, ◌≡◌, arith, In, false, changed, refl, some, In-update, Bool, insert, ◌≤◌, any, In-update-cases,
  any-true, Bool-cases, String, any-false, ◌&&◌, In-append_right, In-append_left, here, true, ◌==◌,
  Option-cases, ◌≢◌, In-insert-cases, ◌+◌, inr, List, inl, subst, sym, none,
}

module _ (locked : ℕ → Bool) (d : Db) (worker : String) (ttl : ℕ) (ms : List Metric) (v : Inv d)
    (l : IsLogged d) where
  -- The token that a claim gives was never logged.
  fresh_token :
      (p : StepRow)
      → In p d.steps
      → any (λ a. a.step_id == p.id && a.fencing_token == p.fencing_token + 1) d.attempts ≡ false
  fresh_token p m =
      let q : AttemptRow → Bool =
        λ a. a.step_id == p.id && a.fencing_token == p.fencing_token + 1 in
      elim (Bool-cases (any q d.attempts)) [
        | inr f ↦ f
        | inl t ↦
            let (a, ma, h) = any-true q d.attempts t in
            let (s, mst, id, token) = l.known a ma in
            let same : s ≡ p = v.keyed.step_id s p mst m (ground arith) in
            absurd (ground (arith, same, token))
      ]

  module _ (p : StepRow) (j : JobRow) (e : picked locked d ≡ some p)
      (ej : job_with p.job_id d ≡ some j) where
    abbrev after : Db
    after = published (claim_step locked worker ttl (at d ms))

    abbrev pub lease : AttemptRow
    lease = first_attempt d p.id (p.fencing_token + 1) worker

    pub logged : after.attempts ≡ insert lease d.attempts
    logged =
        claim_attempts locked d worker ttl ms v p j e ej
          (fresh_token p (picked-claimable locked d p e).0)

    not_logged :
        (a : AttemptRow)
        → In a d.attempts
        → a.step_id ≡ p.id
        → a.fencing_token ≢ p.fencing_token + 1
    not_logged a m i n =
        absurd (ground (arith, any-false _ m (fresh_token p (picked-claimable locked d p e).0)))

    leased_row : In (lease_row d.now worker ttl p) after.steps
    leased_row =
        let (steps, _) = claim_tables locked d worker ttl ms v p j e ej in
        let moved =
          In-update (λ s. s.id == p.id) (lease_row d.now worker ttl)
            (picked-claimable locked d p e).0 in
        let hit : changed (λ s. s.id == p.id) (lease_row d.now worker ttl) p
            ≡ lease_row d.now worker ttl p =
          ground arith in
        rw steps (rw hit at moved)

    granted-known :
        (a : AttemptRow)
        → In a after.attempts
        → (s : StepRow) × In s after.steps
          × (s.id ≡ a.step_id)
          × (a.fencing_token ≤ s.fencing_token)
    granted-known a m = elim (In-insert-cases d.attempts (rw logged at m)) [
      | inr new ↦ (lease_row d.now worker ttl p, leased_row, ground arith, ground (arith, new))
      | inl old ↦
          let (s, mst, id, token) = l.known a old in
          let (t, mt, st) = (claim_step-Keeps d ms v locked worker ttl).steps s mst in
          (t, mt, ground (arith, st.id, id), ground (arith, st.token, token))
    ]

    granted-single :
        (a b : AttemptRow)
        → In a after.attempts
        → In b after.attempts
        → a.step_id ≡ b.step_id
        → a.fencing_token ≡ b.fencing_token
        → a ≡ b
    granted-single a b ma mb i n = elim (In-insert-cases d.attempts (rw logged at ma)) [
      | inl old ↦ elim (In-insert-cases d.attempts (rw logged at mb)) [
        | inl old' ↦ l.single a b old old' i n
        | inr new' ↦ absurd (ground (arith, not_logged a old, new', i, n))
      ]
      | inr new ↦ elim (In-insert-cases d.attempts (rw logged at mb)) [
        | inl old' ↦ absurd (ground (arith, not_logged b old', new, i, n))
        | inr new' ↦ cc
      ]
    ]

    granted-running :
        (s : StepRow)
        → In s after.steps
        → is_running s.status ≡ true
        → (a : AttemptRow) × In a after.attempts × IsOpen a s
    granted-running s m h =
        let (steps, _) = claim_tables locked d worker ttl ms v p j e ej in
        let (r, mr, er) =
          In-update-cases (λ s. s.id == p.id) (lease_row d.now worker ttl) d.steps
            (rw steps at m) in
        elim (Bool-cases (r.id == p.id)) [
          | inl t ↦
              let one : r ≡ p =
                v.keyed.step_id r p mr (picked-claimable locked d p e).0 (ground arith) in
              let row : s ≡ lease_row d.now worker ttl p = ground (arith, one) in
              (
                lease,
                rw logged (In-append_right d.attempts here),
                rw row (record {
                  step_id = refl;
                  token = refl;
                  worker = refl;
                  started = refl;
                  unfinished = refl;
                }),
              )
          | inr f ↦
              let same : s ≡ r = ground arith in
              let (a, ma, opened) = l.running r mr (ground arith) in
              (a, rw logged (In-append_left _ ma), subst (IsOpen a) (sym same) opened)
        ]

    granted-settled :
        (a : AttemptRow) (s : StepRow)
        → In a after.attempts
        → a.finished_at ≡ none
        → In s after.steps
        → s.id ≡ a.step_id
        → s.fencing_token ≡ a.fencing_token
        → is_unsettled s ≡ true
    granted-settled a s m n mst i k =
        let (steps, _) = claim_tables locked d worker ttl ms v p j e ej in
        let (r, mr, er) =
          In-update-cases (λ s. s.id == p.id) (lease_row d.now worker ttl) d.steps
            (rw steps at mst) in
        elim (Bool-cases (r.id == p.id)) [
          | inl t ↦ ground (arith, er)
          | inr f ↦
              let same : s ≡ r = ground arith in
              elim (In-insert-cases d.attempts (rw logged at m)) [
                | inr new ↦ absurd (ground (arith, new, same, f, i))
                | inl old ↦
                    rw same
                      (l.settled a r old n mr (ground (arith, same, i)) (ground (arith, same, k)))
              ]
        ]

    granted-begun :
        (a : AttemptRow) → In a after.attempts → a.finished_at ≡ none → is_started a.outcome ≡ true
    granted-begun a m n = elim (In-insert-cases d.attempts (rw logged at m)) [
      | inr new ↦ ground (arith, new)
      | inl old ↦ l.begun a old n
    ]

  pub claim_step-IsLogged : IsLogged (published (claim_step locked worker ttl (at d ms)))
  claim_step-IsLogged = elim (Option-cases (picked locked d)) [
    | inl e ↦ rw (claim_none locked d worker ttl ms e).1 l
    | inr (p, e) ↦
        let (j, ej) = v.keyed.has_job p (picked-claimable locked d p e).0 in
        record {
          known = granted-known p j e ej;
          single = granted-single p j e ej;
          running = granted-running p j e ej;
          begun = granted-begun p j e ej;
          settled = granted-settled p j e ej;
        }
  ]
