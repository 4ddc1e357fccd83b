-- ===== src/Api/Body.antt =====
-- `limit_body` of src/workflow_engine/api.py. What `int` reads in the header is an argument, and so is the
-- rest of the application.
use platform_forge.Models.Values.{Parsed, value_error, minus, plus}
use platform_forge.Api.{Response, error_response}
use platform_forge.Prelude.{ℕ, if◌then◌else◌, String, ltb, none, List, length, Option, Bool, some}

-- What the middleware hands on: the request as it came, or one that repeats the body it has read.
pub data Handed : Type 0 where
  as_came : Handed
  repeated : List ℕ → Handed

abbrev too_large : Response
too_large = error_response 413 "payload_too_large" "request body exceeds MAX_BODY_BYTES"

abbrev pub is_above : ℕ → ℕ → Bool
is_above max_body_bytes n = ltb max_body_bytes n

module _ (int_of : String → Parsed) (max_body_bytes : ℕ) (call_next : Handed → Response) where
  -- `none` is the ValueError of `int`.
  unfoldable pub limit_declared : Parsed → Option Response
  limit_declared value_error = none
  limit_declared (minus n) = some (call_next as_came)
  limit_declared (plus n) =
      if is_above max_body_bytes n then some too_large else some (call_next as_came)

  unfoldable pub limit_read : List ℕ → Option Response
  limit_read body =
      if is_above max_body_bytes (length body)
      then some too_large
      else some (call_next (repeated body))

  unfoldable pub limit_body : Option String → List ℕ → Option Response
  limit_body none body = limit_read body
  limit_body (some String.[]) body = limit_read body
  limit_body (some (String.◌∷◌ c rest)) body = limit_declared (int_of (String.◌∷◌ c rest))
