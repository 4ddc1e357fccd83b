-- ===== src/Worker/Termination.antt =====
-- The turns of a slot that goes well come to an end of the work.
use platform_forge.Metrics.{Metric}
use platform_forge.Models.{Db}
use platform_forge.Effects.{at, published}
use platform_forge.Invariant.{Inv}
use platform_forge.Effects.Claim.{claim_step-Inv}
use platform_forge.Worker.Slot.{turn_once, Turn, SlotSettings, slot_loop, Slot}
use platform_forge.Worker.Turns.{
  IsRested, IsIdle, none_idle, idle_none, claim_returns, turn_works, turn_idle, claim_same,
}
use platform_forge.History.{claim-IsIssued}
use platform_forge.Claims.Claim.{claimable, claim_step}
use platform_forge.Store.{Session}
use platform_forge.Worker.Drain.{
  granted_completable, unsucceeded, success_count, GoesWell, claim_keeps_work, clean_at,
}
use platform_forge.Effects.Success.{complete_success-Inv}
use platform_forge.Effects.Clean.{claim-IsClean, success-IsClean}
use platform_forge.Claims.Complete.{completable}
use platform_forge.Claims.Claimed.{ClaimedStep}
use platform_forge.Prelude.{
  ℕ, count, ◌≤◌, ok, count-zero, Result-cases, some, refl, ◌≡◌, Option-cases, List, ◌∷◌, inl, arith,
  none, ◌<◌, ap, ◌∙◌, inr, ◌⊎◌, find, length, [],
}

abbrev pub AllGoWell : List Turn → Type 0
AllGoWell [] = Unit {0}
AllGoWell (t ∷ rest) = GoesWell t × AllGoWell rest

-- The steps left to do.
abbrev pub left_to_do : Db → ℕ
left_to_do d = count unsucceeded d.steps

module _ (c : SlotSettings) where
  -- After a turn that goes well there was nothing to claim, and the tables are the same, or there is
  -- less to do.
  record TurnResult (t : Turn) (d : Db) (s : Session) : Type 0 where
    rested : IsRested s
    outcome : (IsIdle d × (s.committed ≡ d)) ⊎ (left_to_do s.committed < left_to_do d)

  worked :
      (t : Turn) (g : GoesWell t) (d : Db) (ms : List Metric) (v : Inv d) (pauses : List ℕ)
      (k : ClaimedStep)
      → (claim_step t.locked c.worker_id c.lease_ttl (at d ms)).0 ≡ ok (some k)
      → TurnResult t d (turn_once c t (record { session = at d ms; pauses = pauses })).session
  worked t g d ms v pauses k e =
      let (output, ran) = g.returns k in
      let same = turn_works c t g d ms v pauses k output e ran in
      let d' = published (claim_step t.locked c.worker_id c.lease_ttl (at d ms)) in
      let ms' = (claim_step t.locked c.worker_id c.lease_ttl (at d ms)).1.metrics in
      let v' = claim_step-Inv t.locked d c.worker_id c.lease_ttl ms v in
      let (is, _) = claim-IsIssued d v t.locked c.worker_id c.lease_ttl ms k e in
      let kept = claim_keeps_work d ms v t.locked c.worker_id c.lease_ttl in
      elim (Option-cases (find (completable k.step_id k.fencing_token d') d'.steps)) [
        | inl n ↦ absurd (granted_completable d ms v t.locked c.worker_id c.lease_ttl k e n)
        | inr (p, h) ↦
            let fewer = success_count k output d' ms' p h in
            rw same (record {
              rested = record {
                inv = complete_success-Inv k output d' ms' v' is;
                clean = success-IsClean d' ms' k output;
              };
              outcome = inr (omega (arith, kept, fewer));
            })
      ]

  rested_idle :
      (t : Turn) (g : GoesWell t) (d : Db) (ms : List Metric) (v : Inv d) (pauses : List ℕ)
      → (claim_step t.locked c.worker_id c.lease_ttl (at d ms)).0 ≡ ok none
      → TurnResult t d (turn_once c t (record { session = at d ms; pauses = pauses })).session
  rested_idle t g d ms v pauses e =
      let same = turn_idle c t g d ms v pauses e in
      let kept = claim_same c t g d ms v e in
      rw same (record {
        rested = record {
          inv = rw kept v;
          clean = claim-IsClean d ms t.locked c.worker_id c.lease_ttl;
        };
        outcome = inl (idle_none c t g d ms v e, kept);
      })

  turn_result :
      (t : Turn) (g : GoesWell t) (w : Slot)
      → IsRested w.session
      → TurnResult t w.session.committed (turn_once c t w).session
  turn_result t g w r =
      let d = w.session.committed in
      let ms = w.session.metrics in
      let start : w ≡ record { session = at d ms; pauses = w.pauses } =
        ground (arith, clean_at w.session r.clean) in
      rw start (elim (Result-cases (claim_step t.locked c.worker_id c.lease_ttl (at d ms)).0) [
        | inl (x, e) ↦ absurd (claim_returns c t g d ms r.inv x e)
        | inr (o, e) ↦ elim (Option-cases o) [
          | inl n ↦ rested_idle t g d ms r.inv w.pauses (rw n at e)
          | inr (k, n) ↦ worked t g d ms r.inv w.pauses k (rw n at e)
        ]
      ])

  -- A turn with nothing to claim changes nothing.
  idle_turn :
      (t : Turn) (w : Slot)
      → GoesWell t
      → IsRested w.session
      → IsIdle w.session.committed
      → (turn_once c t w).session.committed ≡ w.session.committed
  idle_turn t w g r idle_now =
      let d = w.session.committed in
      let ms = w.session.metrics in
      let start : w ≡ record { session = at d ms; pauses = w.pauses } =
        ground (arith, clean_at w.session r.clean) in
      let e = none_idle c t g d ms r.inv idle_now in
      rw start (
        ap (λ (s : Session). s.committed) (turn_idle c t g d ms r.inv w.pauses e)
        ∙ claim_same c t g d ms r.inv e)

  nothing_left : (d : Db) → left_to_do d ≡ 0 → IsIdle d
  unfolding claimable
  nothing_left d e s m = ground (arith, count-zero unsucceeded d.steps e s m)

  -- With nothing to claim, more turns change nothing.
  idle_stays :
      (turns : List Turn) (w : Slot)
      → AllGoWell turns
      → IsRested w.session
      → IsIdle w.session.committed
      → (slot_loop c turns w).session.committed ≡ w.session.committed
  unfolding slot_loop
  idle_stays [] w g r idle_now = refl
  idle_stays (t ∷ rest) w (g, gs) r idle_now =
      let same = idle_turn t w g r idle_now in
      let next = turn_result t g w r in
      idle_stays rest (turn_once c t w) gs next.rested (rw (← same) at idle_now) ∙ same

  -- From tables where the invariant holds and nothing is pending, a slot has nothing left to claim
  -- after as many turns as there were steps that had not succeeded, if all its turns go well: none of
  -- them raises, no row is locked, the handler returns an output and sees no cancellation. The clock
  -- stands meanwhile, and no other worker or client writes.
  pub slot_loop-IsIdle :
      (turns : List Turn) (w : Slot)
      → AllGoWell turns
      → IsRested w.session
      → left_to_do w.session.committed ≤ length turns
      → IsIdle (slot_loop c turns w).session.committed
  unfolding slot_loop
  slot_loop-IsIdle [] w g r enough = nothing_left w.session.committed (omega arith)
  slot_loop-IsIdle (t ∷ rest) w (g, gs) r enough =
      let next = turn_result t g w r in
      elim next.outcome [
        | inr fewer ↦ slot_loop-IsIdle rest (turn_once c t w) gs next.rested (omega arith)
        | inl (idle_now, same) ↦
            let after : IsIdle (turn_once c t w).session.committed = rw same idle_now in
            let stays = idle_stays rest (turn_once c t w) gs next.rested after in rw stays after
      ]
