-- ===== src/Lease.antt =====
-- Who may claim what: `claim_step` hands out the oldest claimable step, never one under a live lease,
-- and fences the worker it steals from.
use platform_forge.Claims.Claimed.{ClaimedStep}
use platform_forge.Effects.{at}
use platform_forge.Effects.Success.{IsIssued}
use platform_forge.Metrics.{Metric}
use platform_forge.Store.{Session, Error}
use platform_forge.Invariant.{Inv}
use platform_forge.Effects.Claim.{claim_answer, claim_none, picked-claimable}
use platform_forge.Models.{StepRow, StepStatus, Db}
use platform_forge.Claims.Claim.{before, claimable, claim_step, picked}
use platform_forge.Prelude.{
  ℕ, false, ◌≡◌, none, inl, true, inr, Bool-cases, List, first_by, ◌∷◌, some, arith, In,
  Option-cases, [], ◌≢◌, In-cons-cases, In-select, Option, ok, Bool, ◌≤◌, ◌∙◌, not, ◌<◌, ◌↔◌, ◌&&◌,
  ap, Result, ◌+◌, first_by-none, sym, String,
}

-- Neither of two rows stands before itself, and what does not stand before is kept along the order.
before_asym : (s t : StepRow) → before s t ≡ true → before t s ≡ false
before_asym s t h = ground arith

before_neg_trans : (s t u : StepRow) → before s t ≡ false → before t u ≡ false → before s u ≡ false
before_neg_trans s t u h k = ground arith

before_irrefl : (s : StepRow) → before s s ≡ false
before_irrefl s = ground arith

-- ORDER BY ... LIMIT 1 gives a row that no other stands before.
pub first_by-least :
    (p : StepRow) (xs : List StepRow)
    → first_by before xs ≡ some p
    → (s : StepRow) → In s xs
    → before s p ≡ false
unfolding first_by
first_by-least p [] e s m = elim m [ ]
first_by-least p (x ∷ xs) e s m = elim (Option-cases (first_by before xs)) [
  | inl n ↦
      let q : x ≡ p = ground arith in
      elim (In-cons-cases xs m) [
        | inl same ↦ rw (same, ← q) (before_irrefl x)
        | inr k ↦ absurd (first_by-none before xs n k)
      ]
  | inr (y, h) ↦
      let least = first_by-least y xs h s in
      elim (Bool-cases (before y x)) [
        | inl b ↦
            let q : y ≡ p = ground arith in
            elim (In-cons-cases xs m) [
              | inl same ↦ rw (same, ← q) (before_asym y x b)
              | inr k ↦ rw (← q) (least k)
            ]
        | inr b ↦
            let q : x ≡ p = ground arith in
            elim (In-cons-cases xs m) [
              | inl same ↦ rw (same, ← q) (before_irrefl x)
              | inr k ↦ rw (← q) (before_neg_trans s y x (least k) b)
            ]
      ]
]

-- The rows that a claim may hand out.
abbrev pub is_free : (ℕ → Bool) → Db → StepRow → Bool
is_free locked d s = claimable d s && not (locked s.id)

module _ (locked : ℕ → Bool) (d : Db) (v : Inv d) (worker : String) (ttl : ℕ)
    (ms : List Metric) where
  abbrev claim : Result Error (Option ClaimedStep) × Session
  claim = claim_step locked worker ttl (at d ms)

  claimed_row :
      (c : ClaimedStep)
      → claim.0 ≡ ok (some c)
      → (p : StepRow) × (picked locked d ≡ some p)
        × (c.step_id ≡ p.id)
        × (c.fencing_token ≡ p.fencing_token + 1)
  claimed_row c e = elim (Option-cases (picked locked d)) [
    | inl n ↦ absurd (ground (arith, (claim_none locked d worker ttl ms n).0))
    | inr (p, h) ↦
        let (m, ready, _) = picked-claimable locked d p h in
        let (j, ej) = v.keyed.has_job p m in
        let answer = claim_answer locked d worker ttl ms v p j h ej in
        (p, h, ground (arith, answer, e), ground (arith, answer, e))
  ]

  -- Where the invariant holds, a claim answers with nothing exactly when every claimable step is locked by another transaction.
  pub claim_none_iff :
      (claim.0 ≡ ok none) ↔ ((s : StepRow) → In s d.steps → is_free locked d s ≡ false)
  unfolding picked
  claim_none_iff = (
    λ e s m. elim (Option-cases (picked locked d)) [
      | inl n ↦ elim (Bool-cases (is_free locked d s)) [
        | inl t ↦ absurd (first_by-none before _ n (In-select (is_free locked d) m t))
        | inr f ↦ f
      ]
      | inr (p, h) ↦
          let (mp, _, _) = picked-claimable locked d p h in
          let (j, ej) = v.keyed.has_job p mp in
          absurd (ground (arith, claim_answer locked d worker ttl ms v p j h ej, e))
    ],
    λ none_free. elim (Option-cases (picked locked d)) [
      | inl n ↦ (claim_none locked d worker ttl ms n).0
      | inr (p, h) ↦
          let (mp, ready, free) = picked-claimable locked d p h in
          absurd (ground (arith, none_free p mp, ready, free))
    ],
  )

  -- Where the invariant holds, a claim hands out a claimable, unlocked step, and no other such step
  -- is due before it, by time and then by id.
  pub claim_oldest :
      (c : ClaimedStep)
      → claim.0 ≡ ok (some c)
      → (p : StepRow) × In p d.steps
        × (p.id ≡ c.step_id)
        × (is_free locked d p ≡ true)
        × ((s : StepRow) → In s d.steps → is_free locked d s ≡ true → before s p ≡ false)
  unfolding picked
  claim_oldest c e =
      let (p, h, ei, _) = claimed_row c e in
      let (m, ready, free) = picked-claimable locked d p h in
      (
        p,
        m,
        sym ei,
        ground arith,
        λ s ms t. first_by-least p _ h s (In-select (is_free locked d) ms t),
      )

  -- Where the invariant holds, nobody claims a running step whose lease ends now or later.
  pub live_lease_excludes :
      (c : ClaimedStep) (s : StepRow) (t : ℕ)
      → claim.0 ≡ ok (some c)
      → In s d.steps
      → s.status ≡ StepStatus.running
      → s.leased_until ≡ some t
      → d.now ≤ t
      → c.step_id ≢ s.id
  unfolding claimable
  live_lease_excludes c s t e m runs lease early same =
      let (p, h, ei, _) = claimed_row c e in
      let (mp, ready, _) = picked-claimable locked d p h in
      let one : p ≡ s = v.keyed.step_id p s mp m (sym ei ∙ same) in
      absurd (ground (arith, one, ready))

  -- Where the invariant holds, a claim has a larger token than any claim of the same step that was
  -- granted before.
  pub claim_fences_holder :
      (c old : ClaimedStep)
      → claim.0 ≡ ok (some c)
      → IsIssued d old
      → old.step_id ≡ c.step_id
      → old.fencing_token < c.fencing_token
  claim_fences_holder c old e is same =
      let (p, h, ei, et) = claimed_row c e in
      let (mp, ready, _) = picked-claimable locked d p h in
      let one : is.row ≡ p = v.keyed.step_id is.row p is.row_in mp (is.row_id ∙ same ∙ ei) in
      let token : is.row.fencing_token ≡ p.fencing_token =
        ap (λ (s : StepRow). s.fencing_token) one in
      omega (arith, is.row_token, token, et)
