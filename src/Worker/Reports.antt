-- ===== src/Worker/Reports.antt =====
-- What the report of a worker does to the tables.
use platform_forge.Store.{Session}
use platform_forge.Claims.Claimed.{ClaimedStep}
use platform_forge.Effects.{published, at}
use platform_forge.Claims.Complete.{complete_failure, complete_success, Failure}
use platform_forge.Invariant.{Inv}
use platform_forge.Worker.{is_unregistered, Backoff, Flags, is_error, report, failure_of, error_or}
use platform_forge.Models.{Db, Value, Outcome}
use platform_forge.Fencing.{refusal, stale_success_rejected, stale_failure_rejected}
use platform_forge.Effects.Success.{IsIssued}
use platform_forge.Metrics.{Metric}
use platform_forge.Prelude.{
  Option, refl, Bool-cases, ◌||◌, List, inr, inl, ◌⊎◌, ◌<◌, Option-cases, String, ◌≡◌, true, false,
  if◌then◌else◌,
}

module _ (c : ClaimedStep) (b : Backoff) (output : Option Value) (error : Option String)
    (h : Flags) where
  -- Every report is one call of `complete_success` or of `complete_failure`.
  report-cases :
      (s : Session)
      → ((v : Value) × (report c b output error h s ≡ complete_success c v s))
        ⊎ ((f : Failure) × (report c b output error h s ≡ complete_failure c f s))
  unfolding report
  report-cases s = elim (Bool-cases (is_error error "cancelled" || h.cancelled)) [
    | inl t ↦ inr (failure_of b "cancelled" Outcome.cancelled true, rw t refl)
    | inr n ↦ elim (Option-cases output) [
      | inr (v, e) ↦ inl (v, rw (n, e) refl)
      | inl e ↦ elim (Bool-cases (is_unregistered error)) [
        | inl u ↦ inr (failure_of b (error_or error "") Outcome.failed false, rw (n, e, u) refl)
        | inr u ↦ elim (Bool-cases (is_error error "lease_lost" || h.lost)) [
          | inl l ↦ inr (
            failure_of b (error_or error "lease_lost") Outcome.rejected_fence true,
            rw (n, e, u, l) refl,
          )
          | inr l ↦ inr (
            failure_of b (error_or error "failed")
                (if is_error error "timeout" then Outcome.timeout else Outcome.failed) true,
            rw (n, e, u, l) refl,
          )
        ]
      ]
    ]
  ]

  module _ (d : Db) (ms : List Metric) (v : Inv d) (is : IsIssued d c) where
    -- Where the invariant holds and a granted claim has a smaller token than its row, nothing that its
    -- worker reports changes a job or a step, and the answer is `rejected_fence`, or `cancelled` if the
    -- job is cancelled: whatever the handler returned or raised, and whatever the heartbeat saw.
    pub stale_report_rejected :
        c.fencing_token < is.row.fencing_token
        → let r = report c b output error h (at d ms) in
          ((published r).steps ≡ d.steps) × ((published r).jobs ≡ d.jobs) × (r.0 ≡ refusal c d)
    stale_report_rejected stale = elim (report-cases (at d ms)) [
      | inl (w, e) ↦ rw e (stale_success_rejected c d v is stale w ms)
      | inr (f, e) ↦ rw e (stale_failure_rejected c d v is stale f ms)
    ]
