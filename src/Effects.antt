-- ===== src/Effects.antt =====
-- What each operation of claims.py does to the tables, and that it keeps the invariant.
pub mod Accepts
pub mod Claim
pub mod Submit
pub mod SubmitLaws
pub mod Clean
pub mod Failure
pub mod Cancel
pub mod Heartbeat
pub mod Success
use platform_forge.Prelude.{List}
use platform_forge.Models.{Db}
use platform_forge.Metrics.{Metric}
use platform_forge.Store.{Session}

-- A session with nothing pending.
abbrev pub at : Db → List Metric → Session
at d ms = record { committed = d; work = d; metrics = ms }

-- The tables that the session has published.
abbrev pub published {ℓ} : {A : Type ℓ} → A × Session → Db
published r = r.1.committed
