-- ===== src/Effects/Heartbeat.antt =====
-- `heartbeat`: what it renews, and what it reports.
use platform_forge.Invariant.{Inv}
use platform_forge.Metrics.{Metric}
use platform_forge.Store.{Session, Error}
use platform_forge.Claims.Heartbeat.{
  heartbeat_missed, joined, heartbeat, beats, heartbeat_sql, renew_row,
}
use platform_forge.Invariant.Fail.{renew-Inv}
use platform_forge.Models.{JobRow, Db, JobStatus, StepRow, is_running}
use platform_forge.Effects.{at, published}
use platform_forge.Prelude.{
  ℕ, Result, some, none, Option, inl, Option-cases, ◌≡◌, ok, arith, inr, true, List, String, update,
}

module _ (step_id : ℕ) (worker : String) (token ttl : ℕ) (d : Db) (ms : List Metric) where
  abbrev beat : Result Error (Option JobStatus) × Session
  beat = heartbeat step_id worker token ttl (at d ms)

  pub heartbeat_missed_tables :
      joined (beats step_id worker token) d ≡ none
      → (published beat ≡ d) × (beat.0 ≡ ok (heartbeat_missed step_id token d))
  unfolding heartbeat heartbeat_sql
  heartbeat_missed_tables e = ground arith

  pub heartbeat_tables :
      (s : StepRow) (j : JobRow)
      → joined (beats step_id worker token) d ≡ some (s, j)
      → ((published beat).steps ≡ update (beats step_id worker token) (renew_row d.now ttl) d.steps)
        × ((published beat).jobs ≡ d.jobs)
        × (beat.0 ≡ ok (some j.status))
  unfolding heartbeat heartbeat_sql
  heartbeat_tables s j e = ground arith

  beats_running : (s : StepRow) → beats step_id worker token s ≡ true → is_running s.status ≡ true
  unfolding beats
  beats_running s h = ground arith

  -- A heartbeat keeps the invariant of the tables.
  pub heartbeat-Inv : Inv d → Inv (published beat)
  heartbeat-Inv v = elim (Option-cases (joined (beats step_id worker token) d)) [
    | inl e ↦ rw (heartbeat_missed_tables e).0 v
    | inr ((s, j), e) ↦
        let (steps, jobs, _) = heartbeat_tables s j e in
        renew-Inv d _ (beats step_id worker token) d.now ttl v steps jobs beats_running
  ]
