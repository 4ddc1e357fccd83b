-- ===== src/Worker/Turns.antt =====
-- What one turn of a slot does when nothing fails, and the turns until there is nothing to claim.
use platform_forge.Claims.Complete.{complete_success}
use platform_forge.Invariant.{Inv}
use platform_forge.Effects.Claim.{picked-claimable, claim_none, claim_answer}
use platform_forge.Metrics.{Metric}
use platform_forge.Effects.Clean.{success-IsClean, claim-IsClean}
use platform_forge.Claims.Claimed.{ClaimedStep, Verdict}
use platform_forge.Lease.{claim_none_iff}
use platform_forge.Store.{Error, connection, Session, M}
use platform_forge.Claims.Claim.{claim_step, picked, claimable}
use platform_forge.Worker.{Backoff, report, Flags}
use platform_forge.Models.{Db, Value, StepRow}
use platform_forge.Effects.{published, at}
use platform_forge.Worker.Slot.{idle, turn_once, execute_claimed, act_on, Turn, SlotSettings}
use platform_forge.Worker.Drain.{clean_at, GoesWell}
use platform_forge.Prelude.{
  ℕ, inr, inl, err, ◌≢◌, none, arith, In, false, Result, Option-cases, Result-cases, ◌≡◌, Option,
  ok, some, List,
}

-- Between two turns nothing is pending and the invariant holds.
pub record IsRested (s : Session) : Type 0 where
  pub inv : Inv s.committed
  pub clean : s.work ≡ s.committed

-- There is no step to claim.
abbrev pub IsIdle : Db → Type 0
IsIdle d = (s : StepRow) → In s d.steps → claimable d s ≡ false

pub connection-clean :
    {A : Type 0} (m : M A) (s : Session) → (m s).1.work ≡ (m s).1.committed → connection m s ≡ m s
unfolding connection
connection-clean m s e = elim (Result-cases (m s).0) [
  | inl (x, h) ↦ ground arith
  | inr (a, h) ↦ ground arith
]

pub report_success :
    (c : ClaimedStep) (b : Backoff) (output : Value) (h : Flags) (s : Session)
    → h.cancelled ≡ false
    → report c b (some output) none h s ≡ complete_success c output s
unfolding report
report_success c b output h s e = ground arith

module _ (c : SlotSettings) (t : Turn) (g : GoesWell t) (d : Db) (ms : List Metric)
    (v : Inv d) where
  abbrev claim : Result Error (Option ClaimedStep) × Session
  claim = claim_step t.locked c.worker_id c.lease_ttl (at d ms)

  turn_claims :
      (pauses : List ℕ)
      → turn_once c t (record { session = at d ms; pauses = pauses })
        ≡ act_on c t claim.0 (record { session = claim.1; pauses = pauses })
  unfolding turn_once
  turn_claims pauses =
      let same =
        connection-clean (claim_step t.locked c.worker_id c.lease_ttl) (at d ms)
          (claim-IsClean d ms t.locked c.worker_id c.lease_ttl) in
      ground (arith, same, g.claims)

  -- Without a claimable step the tables stay as they are.
  pub turn_idle :
      (pauses : List ℕ)
      → claim.0 ≡ ok none
      → (turn_once c t (record { session = at d ms; pauses = pauses })).session ≡ claim.1
  unfolding act_on idle
  turn_idle pauses e = ground (arith, turn_claims pauses)

  pub none_idle : IsIdle d → claim.0 ≡ ok none
  none_idle idle_now =
      (claim_none_iff t.locked d v c.worker_id c.lease_ttl ms).1
        (λ s m. ground (arith, idle_now s m))

  pub idle_none : claim.0 ≡ ok none → IsIdle d
  idle_none e s m =
      ground
        (arith, (claim_none_iff t.locked d v c.worker_id c.lease_ttl ms).0 e s m, g.unlocked s.id)

  pub claim_same : claim.0 ≡ ok none → published claim ≡ d
  claim_same e = elim (Option-cases (picked t.locked d)) [
    | inl n ↦ (claim_none t.locked d c.worker_id c.lease_ttl ms n).1
    | inr (p, h) ↦
        let (m, _, _) = picked-claimable t.locked d p h in
        let (j, ej) = v.keyed.has_job p m in
        absurd (ground (arith, claim_answer t.locked d c.worker_id c.lease_ttl ms v p j h ej))
  ]

  pub claim_returns : (r : Error) → claim.0 ≢ err r
  claim_returns r e = elim (Option-cases (picked t.locked d)) [
    | inl n ↦ absurd (ground (arith, (claim_none t.locked d c.worker_id c.lease_ttl ms n).0))
    | inr (p, h) ↦
        let (m, _, _) = picked-claimable t.locked d p h in
        let (j, ej) = v.keyed.has_job p m in
        absurd (ground (arith, claim_answer t.locked d c.worker_id c.lease_ttl ms v p j h ej))
  ]

  claim_settled : claim.1 ≡ at (published claim) claim.1.metrics
  claim_settled = clean_at claim.1 (claim-IsClean d ms t.locked c.worker_id c.lease_ttl)

  -- The report of the granted claim.
  abbrev reported : ClaimedStep → Value → Result Error Verdict × Session
  reported k output = complete_success k output (at (published claim) claim.1.metrics)

  pub turn_works :
      (pauses : List ℕ) (k : ClaimedStep) (output : Value)
      → claim.0 ≡ ok (some k)
      → t.ran k ≡ (some output, none)
      → (turn_once c t (record { session = at d ms; pauses = pauses })).session
        ≡ (reported k output).1
  unfolding act_on execute_claimed
  turn_works pauses k output e r =
      let same =
        connection-clean (report k c.backoff (some output) none t.flags)
          (at (published claim) claim.1.metrics)
          (ground (
            arith,
            report_success k c.backoff output t.flags (at (published claim) claim.1.metrics)
                g.uncancelled,
            success-IsClean (published claim) claim.1.metrics k output,
          )) in
      ground (
        arith,
        turn_claims pauses,
        claim_settled,
        same,
        g.executes,
        report_success k c.backoff output t.flags (at (published claim) claim.1.metrics)
            g.uncancelled,
      )
