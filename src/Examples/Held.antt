-- ===== src/Examples/Held.antt =====
-- The claims that the workers of the examples hold, and the tables that they hold them in.
use platform_forge.History.{waits, IsSound, empty-IsSound, Reach-IsSound}
use platform_forge.Models.{StepStatus}
use platform_forge.Registry.Jitter.{IsUniform}
use platform_forge.Examples.Runs.{claimed-IsSound, claim_history, halted_history}
use platform_forge.Effects.Success.{IsIssued}
use platform_forge.Examples.Data.{claim_of, stolen_db, leased, claimed_db, expired_db, halted_db}
use platform_forge.Prelude.{false, refl, here, arith, [], ◌∷◌, none}

-- The old claim of w1 in the tables where w2 has stolen the step.
abbrev pub stale_claim : IsIssued stolen_db (claim_of 1 false)
stale_claim = record {
  row = leased 1020 "w2" 2;
  row_in = here;
  row_id = refl;
  row_job = refl;
  row_seq = refl;
  row_name = refl;
  row_token = omega arith;
}

-- The claim that w1 holds, before anyone steals it.
pub held_claim : IsIssued claimed_db (claim_of 1 false)
held_claim = claimed-IsSound.issued (claim_of 1 false) here

pub expired-IsSound : IsSound expired_db (claim_of 1 false ∷ [])
expired-IsSound = Reach-IsSound (empty-IsSound 1000) (waits 20 claim_history)

pub greatest-IsUniform : IsUniform (λ lo hi. hi)
greatest-IsUniform lo hi h = (h, omega arith)

pub halted-IsSound : IsSound halted_db (claim_of 1 false ∷ [])
halted-IsSound = Reach-IsSound (empty-IsSound 1000) halted_history

-- The claim of w1, whose job was cancelled.
abbrev pub halted_claim : IsIssued halted_db (claim_of 1 false)
halted_claim = record {
  row = record (leased 1000 "w1" 1) {
    status = StepStatus.cancelled;
    leased_until = none;
    worker_id = none;
  };
  row_in = here;
  row_id = refl;
  row_job = refl;
  row_seq = refl;
  row_name = refl;
  row_token = omega arith;
}
