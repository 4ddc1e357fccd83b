-- ===== src/Api/Status.antt =====
-- /health, /metrics and `_gauge_loop` of src/workflow_engine/api.py. Whether the database fails a call, and the
-- exposition of the gauges, are arguments.
use platform_forge.Models.Values.{field, text, dict, end}
use platform_forge.Api.{Response, answer}
use platform_forge.Claims.Gauges.{Gauges, refresh_gauges}
use platform_forge.Store.{Session, Error, connection, execute}
use platform_forge.Store.{execute}
use platform_forge.Prelude.{Bool, List, [], ◌∷◌, Result, ok, err, String, if◌then◌else◌}

-- `SELECT 1`; a failure is the exception that the caller gets.
unfoldable pub health : Session → Result Error Response × Session
health s =
    let (r, s') = connection (execute (λ d. d)) s in
    elim r [
      | ok _ ↦ (ok (answer (dict (field "status" (text "ok") end))), s')
      | err e ↦ (err e, s')
    ]

-- The gauges after a refresh, or as they were if it raises.
unfoldable pub refreshed : Bool → Gauges → Session → Gauges × Session
refreshed fails old s =
    if fails
    then (old, s)
    else (let (r, s') = connection refresh_gauges s in
        elim r [ ok now ↦ (now, s') | err e ↦ (old, s') ])

unfoldable pub metrics : (Gauges → String) → Bool → Gauges → Session → String × Gauges × Session
metrics render fails old s = let (now, s') = refreshed fails old s in (render now, now, s')

-- `_gauge_loop`: a turn every two seconds, which may raise, until the event is set.
unfoldable pub gauge_loop : List Bool → Gauges → Session → Gauges × Session
gauge_loop [] old s = (old, s)
gauge_loop (fails ∷ rest) old s = let (now, s') = refreshed fails old s in gauge_loop rest now s'
