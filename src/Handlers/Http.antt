-- ===== src/Handlers/Http.antt =====
-- `http_post` and `fail_until` of src/workflow_engine/handlers.py. `urlparse`, the reading of a number and
-- the text of a value, and what the HTTP client answers are arguments.
use platform_forge.Claims.Claimed.{slice_to}
use platform_forge.Handlers.{raised, returned, StepContext, Ended}
use Prim.Native.Char.{code}
use Prim.Native.String.{◌++◌ as str_append}
use platform_forge.Models.Values.{
  Parsed, value_error, minus, plus, nat, bool, null, text, field, neg, end, dict, nil, array,
  Fields,
}
use platform_forge.Config.{allowed_hosts}
use platform_forge.Schema.{Text}
use platform_forge.Models.{Value}
use platform_forge.Models.Values.{Fields, dict, field, nat, text, bool, array, null, end, neg, nil}
use platform_forge.Prelude.{
  ℕ, Bool, List, [], ◌∷◌, if◌then◌else◌, String, none, false, ◌==◌, true, Option, some, ◌&&◌, not,
  str_eq, ◌||◌, ok, Result, err, ltb, any,
}

unfoldable pub lookup : String → Fields → Option Value
lookup key end = none
lookup key (field k v rest) = if str_eq k key then some v else lookup key rest

-- ctx.job_input.get(key)
abbrev pub input_of : String → StepContext → Option Value
input_of key ctx = elim ctx.job_input [ dict fs ↦ lookup key fs | _ ↦ none ]

-- The truth of a value.
abbrev pub is_true : Value → Bool
is_true v = elim v [
  | null ↦ false
  | bool b ↦ b
  | nat n ↦ not (n == 0)
  | neg n ↦ not (n == 0)
  | text s ↦ not (str_eq s "")
  | array nil ↦ false
  | dict end ↦ false
  | _ ↦ true
]

-- What `urlparse` finds in a URL.
pub record Url : Type 0 where
  pub scheme : String
  pub hostname : Option Text

-- A call of `httpx.post`.
pub record Request {ℓ} (T : Type ℓ) : Type ℓ where
  pub url : String
  pub json : Value
  pub idempotency_key : String
  pub fencing_token : ℕ
  pub timeout : T

-- What the call gives: it raises, or there is a response, whose body may be no JSON.
pub data Reply : Type 0 where
  no_reply : String → Reply
  reply : ℕ → Option Value → String → Reply

abbrev pub is_http : String → Bool
is_http scheme = str_eq scheme "http" || str_eq scheme "https"

-- parsed.hostname or ""
abbrev pub host_of : Option Text → Text
host_of none = []
host_of (some h) = h

-- The code points of a text.
unfoldable pub code_points : String → Text
code_points String.[] = []
code_points (String.◌∷◌ c s) = code c ∷ code_points s

-- `_allowed_hosts`, where the settings may not be bound yet.
unfoldable pub bound_hosts : (Text → Text) → Option Text → List Text
bound_hosts lower none = code_points "127.0.0.1" ∷ code_points "localhost" ∷ []
bound_hosts lower (some allowed_http_hosts) = allowed_hosts lower allowed_http_hosts

unfoldable pub text_eq : Text → Text → Bool
text_eq [] [] = true
text_eq [] (c ∷ s) = false
text_eq (c ∷ s) [] = false
text_eq (c ∷ s) (d ∷ t) = c == d && text_eq s t

-- str(ctx.job_input.get("url") or "")
abbrev pub url_of : (Value → String) → StepContext → String
url_of str_of ctx = elim (input_of "url" ctx) [
  | none ↦ ""
  | some v ↦ if is_true v then str_of v else ""
]

module _ {T : Type 0} (str_of : Value → String) (float_of : Value → Result String T) where
  -- The arguments of the call; the reading of the time limit may raise.
  unfoldable pub request_of : String → StepContext → Result String (Request T)
  request_of url ctx =
      elim (float_of (elim (input_of "http_timeout_seconds" ctx) [ none ↦ nat 5 | some v ↦ v ])) [
        | err e ↦ err e
        | ok timeout ↦ ok (record {
          url = url;
          json = elim (input_of "body" ctx) [ none ↦ ctx.job_input | some v ↦ v ];
          idempotency_key = ctx.idempotency_key;
          fencing_token = ctx.fencing_token;
          timeout = timeout;
        })
      ]

  -- What becomes of the response: `raise_for_status` may raise.
  unfoldable pub handle_reply : (ℕ → Option String) → Reply → Ended
  handle_reply raise_for_status (no_reply e) = raised e
  handle_reply raise_for_status (reply status json body) = elim (raise_for_status status) [
    | some e ↦ raised e
    | none ↦ returned (
        dict (
          field "status_code" (nat status)
            (field "body" (elim json [ none ↦ text (slice_to 500 body) | some v ↦ v ]) end)))
  ]

  -- `http_post`: how it ends, and the requests that it sends.
  unfoldable pub http_post :
      (Text → Text)
      → (String → Result String Url)
      → (Text → String)
      → (Request T → Reply)
      → (ℕ → Option String)
      → Option Text
      → StepContext
      → Ended × List (Request T)
  http_post lower urlparse repr post raise_for_status settings ctx =
      let url = url_of str_of ctx in
      elim (urlparse url) [
        | err e ↦ (raised e, [])
        | ok parsed ↦
            let host = lower (host_of parsed.hostname) in
            if not (is_http parsed.scheme)
            then (raised "http_post only allows http/https URLs", [])
            else (if not (any (text_eq host) (bound_hosts lower settings))
                then (
                  raised (
                      str_append "http_post host "
                        (str_append (repr host) " is not in ALLOWED_HTTP_HOSTS")),
                  [],
                )
                else elim (request_of url ctx) [
                  | err e ↦ (raised e, [])
                  | ok r ↦ (handle_reply raise_for_status (post r), r ∷ [])
                ])
      ]

-- `fail_until`; `int` of the value may raise, or be a number of either sign.
unfoldable pub fail_until : (Value → Parsed) → (ℕ → String) → StepContext → Ended
fail_until int_of str_nat ctx =
    elim (int_of (elim (input_of "fail_until" ctx) [ none ↦ nat 3 | some v ↦ v ])) [
      | value_error ↦ raised "ValueError"
      | minus n ↦ returned (dict (field "passed_on_attempt" (nat ctx.attempt_count) end))
      | plus until ↦
          if ltb ctx.attempt_count until
          then raised (
              str_append "fail_until: attempt "
                (str_append (str_nat ctx.attempt_count) (str_append " < " (str_nat until))))
          else returned (dict (field "passed_on_attempt" (nat ctx.attempt_count) end))
    ]
