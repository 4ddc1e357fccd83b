-- ===== src/Worker.antt =====
-- src/workflow_engine/worker.py: the heartbeat thread as a loop over what its beats answer, what
-- `_run_handler` makes of the handler's thread, and the report of `execute_claimed`. The threads, the
-- clock and the log are left out: what they give is an argument.
pub mod Beats
pub mod Reports
pub mod Slot
pub mod Context
pub mod Drain
pub mod Turns
pub mod Termination
use platform_forge.Store.{M}
use platform_forge.Claims.Complete.{Failure, complete_failure, complete_success}
use platform_forge.Registry.{Workflow, handler}
use platform_forge.Models.Values.{dict}
use platform_forge.Models.{job_is_cancelled, JobStatus, Outcome, Value}
use platform_forge.Claims.Claimed.{Verdict, ClaimedStep}
use Prim.Native.String.{◌++◌ as str_append}
use platform_forge.Prelude.{
  ℕ, [], List, ltb, Bool, ◌++◌, none, false, some, str_eq, Option, true, ◌+◌, if◌then◌else◌, ◌||◌,
  ◌∷◌, ◌&&◌, String,
}

-- The answer of one beat: an exception, or what `heartbeat` returned.
pub data Beat : Type 0 where
  failed : Beat
  answered : Option JobStatus → Beat

-- The state of `Heartbeat`; `running` until `_loop` returns.
pub record Flags : Type 0 where
  pub lost : Bool
  pub cancelled : Bool
  pub transient_failures : ℕ
  pub running : Bool

abbrev pub new_flags : Flags
new_flags = record { lost = false; cancelled = false; transient_failures = 0; running = true }

-- A beat that raised; two in a row are let through.
unfoldable pub beat_failed : Flags → Flags
beat_failed h =
    let n = h.transient_failures + 1 in
    if ltb 2 n
    then record h { transient_failures = n; lost = true; running = false }
    else record h { transient_failures = n }

-- A beat that answered.
unfoldable pub beat_answered : Option JobStatus → Flags → Flags
beat_answered none h = record h { transient_failures = 0; lost = true; running = false }
beat_answered (some status) h =
    if job_is_cancelled status
    then record h { transient_failures = 0; cancelled = true; running = false }
    else record h { transient_failures = 0 }

unfoldable pub beat_once : Beat → Flags → Flags
beat_once failed h = beat_failed h
beat_once (answered a) h = beat_answered a h

-- `_loop`, until it returns or `stop` is set, which ends the list.
unfoldable pub beat_loop : List Beat → Flags → Flags
beat_loop [] h = h
beat_loop (b ∷ rest) h =
    let after = beat_once b h in
    let later = beat_loop rest after in if after.running then later else after

abbrev pub should_stop : Flags → Bool
should_stop h = h.lost || h.cancelled

-- What the thread of the handler has put into its box.
pub data Box : Type 0 where
  nothing : Box
  err_in : String → String → Box
  out_in : Value → Box

abbrev pub is_dict : Value → Bool
is_dict v = elim v [ Value.dict _ ↦ true | _ ↦ false ]

-- The end of `_run_handler`: the output, or an error. `alive` says whether the thread still runs.
unfoldable pub box_result : Box → Flags → Bool → Option Value × Option String
box_result (err_in kind message) h alive = (none, some (str_append kind (str_append ": " message)))
box_result (out_in v) h alive =
    if is_dict v then (some v, none) else (none, some "handler must return a dict")
box_result nothing h alive =
    if h.cancelled
    then (none, some "cancelled")
    else (if h.lost
        then (none, some "lease_lost")
        else (if alive
            then (none, some "timeout")
            else (none, some "handler exited without result")))

-- `_run_handler`, given what its thread left behind.
unfoldable pub run_result {ℓ} :
    {H : Type ℓ}
    → List (Workflow H)
    → ClaimedStep
    → Box
    → Flags
    → Bool
    → Option Value × Option String
run_result registry c box h alive = elim (handler registry c.workflow_name c.name) [
  | none ↦ (
    none,
    some (str_append "unregistered handler " (str_append c.workflow_name (str_append "." c.name))),
  )
  | some _ ↦ box_result box h alive
]

-- error == text, which is not true of None
abbrev pub is_error : Option String → String → Bool
is_error none t = false
is_error (some e) t = str_eq e t

-- s.startswith(p)
unfoldable pub starts_with : String → String → Bool
starts_with String.[] s = true
starts_with (String.◌∷◌ c p) String.[] = false
starts_with (String.◌∷◌ c p) (String.◌∷◌ d s) =
    str_eq (String.◌∷◌ c String.[]) (String.◌∷◌ d String.[]) && starts_with p s

abbrev pub is_unregistered : Option String → Bool
is_unregistered none = false
is_unregistered (some e) = starts_with "unregistered handler" e

-- error or default
abbrev pub error_or : Option String → String → String
error_or none t = t
error_or (some String.[]) t = t
error_or (some (String.◌∷◌ c s)) t = String.◌∷◌ c s

-- The backoff of the settings, and the generator's `uniform`.
pub record Backoff : Type 0 where
  pub base : ℕ
  pub maximum : ℕ
  pub uniform : ℕ → ℕ → ℕ

abbrev pub failure_of : Backoff → String → Outcome → Bool → Failure
failure_of b error outcome retryable = record {
  error = error;
  outcome = outcome;
  base_backoff = b.base;
  max_backoff = b.maximum;
  uniform = b.uniform;
  retryable = retryable;
}

-- The report of `execute_claimed`, after the handler and the heartbeat have ended.
unfoldable pub report : ClaimedStep → Backoff → Option Value → Option String → Flags → M Verdict
report c b output error h =
    if is_error error "cancelled" || h.cancelled
    then complete_failure c (failure_of b "cancelled" Outcome.cancelled true)
    else elim output [
      | some v ↦ complete_success c v
      | none ↦
          if is_unregistered error
          then complete_failure c (failure_of b (error_or error "") Outcome.failed false)
          else (if is_error error "lease_lost" || h.lost
              then complete_failure c
                  (failure_of b (error_or error "lease_lost") Outcome.rejected_fence true)
              else complete_failure c (
                  failure_of b (error_or error "failed")
                    (if is_error error "timeout" then Outcome.timeout else Outcome.failed) true))
    ]
