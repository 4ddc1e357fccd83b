-- ===== src/Metrics.antt =====
-- src/workflow_engine/metrics.py: the counters that the protocols increment, as a log of `inc`.
use platform_forge.Prelude.{Bool, String}
use platform_forge.Models.{Outcome}

-- `true` stands for the label value "true".
pub data Metric : Type 0 where
  jobs_submitted : String → Bool → Metric
  steps_claimed : String → Bool → Metric
  steps_completed : String → String → Metric
  lease_expired : String → Metric
  fencing_reject : String → Metric

-- The text of an outcome, as the label and the column hold it.
unfoldable pub outcome_text : Outcome → String
outcome_text Outcome.started = "started"
outcome_text Outcome.succeeded = "succeeded"
outcome_text Outcome.failed = "failed"
outcome_text Outcome.rejected_fence = "rejected_fence"
outcome_text Outcome.cancelled = "cancelled"
outcome_text Outcome.timeout = "timeout"
