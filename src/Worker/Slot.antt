-- ===== src/Worker/Slot.antt =====
-- `slot_loop` of src/workflow_engine/worker.py: the turns of one slot until `stop` is set. What fails,
-- which rows others hold locked and what `_run_handler` makes of a claim are arguments of a turn; the
-- pauses are recorded by their upper bounds, in microseconds.
use platform_forge.Claims.Claim.{claim_step}
use platform_forge.Store.{connection, Error, Session}
use platform_forge.Models.{Value}
use platform_forge.Claims.Claimed.{ClaimedStep}
use platform_forge.Worker.{report, Flags, Backoff}
use platform_forge.Prelude.{
  ℕ, ◌*◌, List, ok, min, Bool, [], Option, String, Result, err, ◌∷◌, none, if◌then◌else◌, some,
  ◌&&◌, insert,
}

pub record Turn : Type 0 where
  -- the claim raises, as when the database is gone
  pub claim_fails : Bool
  pub locked : ℕ → Bool
  -- waiting for a notification raises
  pub notify_fails : Bool
  -- `execute_claimed` raises, and its transaction is rolled back
  pub execute_fails : Bool
  pub ran : ClaimedStep → Option Value × Option String
  pub flags : Flags

-- What the loop reads of the settings, and whether it listens for notifications.
pub record SlotSettings : Type 0 where
  pub worker_id : String
  pub lease_ttl : ℕ
  pub poll_interval : ℕ
  pub listening : Bool
  pub backoff : Backoff

pub record Slot : Type 0 where
  pub session : Session
  pub pauses : List ℕ

abbrev pause : ℕ → Slot → Slot
pause time w = record w { pauses = insert time w.pauses }

-- The wait of a turn that found nothing to claim.
unfoldable pub idle : SlotSettings → Turn → Slot → Slot
idle c t w =
    if c.listening && t.notify_fails
    then pause c.poll_interval (pause c.poll_interval w)
    else pause c.poll_interval w

-- `execute_claimed`, whose last part is a transaction, and the pause if it raises.
unfoldable pub execute_claimed : SlotSettings → Turn → ClaimedStep → Slot → Slot
execute_claimed c t claimed w =
    if t.execute_fails
    then pause 500000 w
    else (let (output, error) = t.ran claimed in
        let (r, s) = connection (report claimed c.backoff output error t.flags) w.session in
        elim r [
          | ok _ ↦ record w { session = s }
          | err _ ↦ pause 500000 (record w { session = s })
        ])

-- What a turn does with the answer of `claim_step`.
unfoldable pub act_on : SlotSettings → Turn → Result Error (Option ClaimedStep) → Slot → Slot
act_on c t (err e) w = pause (min 2000000 (c.poll_interval * 4)) w
act_on c t (ok none) w = idle c t w
act_on c t (ok (some claimed)) w = execute_claimed c t claimed w

unfoldable pub turn_once : SlotSettings → Turn → Slot → Slot
turn_once c t w =
    if t.claim_fails
    then pause (min 2000000 (c.poll_interval * 4)) w
    else (let (r, s) = connection (claim_step t.locked c.worker_id c.lease_ttl) w.session in
        act_on c t r (record w { session = s }))

unfoldable pub slot_loop : SlotSettings → List Turn → Slot → Slot
slot_loop c [] w = w
slot_loop c (t ∷ rest) w = slot_loop c rest (turn_once c t w)
