-- ===== src/Examples/Requests.antt =====
-- A run of `http_post` to a host of the setting, and two pools.
use platform_forge.Pool.{configure_pool, get_pool, no_pool, open_is_current, configures, boots}
use platform_forge.Handlers.{StepContext}
use platform_forge.Handlers.Http.{
  Request, Reply, reply, Url, http_post, code_points, host_of, is_http, text_eq, bound_hosts,
  request_of, lookup,
}
use platform_forge.Handlers.Hosts.{http_post-IsAllowed}
use platform_forge.Config.{allowed_hosts, split_comma, hosts_of}
use platform_forge.Schema.{Text, strip, is_empty, rstrip, lstrip}
use platform_forge.Models.Values.{text, dict, field, end}
use platform_forge.Models.{Value}
use platform_forge.Examples.Data.{context}
use platform_forge.Prelude.{
  ℕ, ◌≡◌, true, false, [], ◌∷◌, refl, In, here, some, none, ok, Result, String, length, any, Option,
  ◌⊎◌, arith, ◌≢◌, In-cons-cases, inl, inr,
}

abbrev str_of : Value → String
str_of v = "http://localhost/hook"

abbrev float_of : Value → Result String ℕ
float_of v = ok 5

abbrev lower : Text → Text
lower s = s

-- "localhost"
abbrev localhost : Text
localhost = code_points "localhost"

abbrev urlparse : String → Result String Url
urlparse url = ok (record { scheme = "http"; hostname = some localhost })

abbrev repr : Text → String
repr s = "a host"

abbrev post : Request ℕ → Reply
post r = reply 200 none "done"

abbrev raise_for_status : ℕ → Option String
raise_for_status n = none

-- "x, localhost"
abbrev setting : Text
setting = code_points "x, localhost"

abbrev hook : StepContext
hook = record (context 1) { job_input = dict (field "url" (text "http://localhost/hook") end) }

abbrev the_request : Request ℕ
the_request = record {
  url = "http://localhost/hook";
  json = hook.job_input;
  idempotency_key = hook.idempotency_key;
  fencing_token = 1;
  timeout = 5;
}

sent_run :
    (http_post str_of float_of lower urlparse repr post raise_for_status (some setting) hook).1
    ≡ the_request ∷ []
unfolding http_post request_of bound_hosts allowed_hosts hosts_of split_comma text_eq lookup
    code_points any rstrip lstrip
sent_run = refl

http_post-IsAllowed_example :
    let sent =
      (http_post str_of float_of lower urlparse repr post raise_for_status (some setting) hook).1 in
    (length sent ≡ 1)
    × (the_request.idempotency_key ≡ hook.idempotency_key)
    × (the_request.fencing_token ≡ hook.fencing_token)
    × (u : Url) × (part : Text) × (urlparse the_request.url ≡ ok u)
    × (is_http u.scheme ≡ true)
    × In part (split_comma setting)
    × (is_empty (strip part) ≡ false)
    × (lower (host_of u.hostname) ≡ lower (strip part))
http_post-IsAllowed_example =
    http_post-IsAllowed str_of float_of lower urlparse repr post raise_for_status setting hook
      the_request (rw sent_run here)

open_is_current_example :
    let p = (configure_pool (ok 2) (some "no database") (configure_pool (ok 1) none no_pool).1).1 in
    (In 1 p.closed × (get_pool p ≢ ok 1)) ⊎ ((In 1 p.closed → ⊥) × (get_pool p ≡ ok 1))
unfolding configure_pool
open_is_current_example =
    open_is_current
      (configures 2 (some "no database")
        (λ m. elim (In-cons-cases {x = 1} [] m) [
          | inl e ↦ absurd (ground (arith, e))
          | inr k ↦ elim k [ ]
        ])
        (configures 1 none (λ m. elim m [ ]) boots))
      1 here
