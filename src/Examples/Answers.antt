-- ===== src/Examples/Answers.antt =====
-- The theorems on the endpoints, the views and the slot loop, at the tables of the examples.
use platform_forge.History.Keys.{effect_key_stable}
use platform_forge.Worker.Context.{context_of}
use platform_forge.History.{empty-IsSound}
use platform_forge.Models.Values.{dict, end, field, uuid, array, item, nil}
use platform_forge.Models.{Value, is_active, is_dead_lettered}
use platform_forge.Api.Jobs.{SubmitBody, cancel, replay}
use platform_forge.Api.Laws.{outcome_of, cancel_answers, replay_answers}
use platform_forge.Api.Demo.{Demo, no_demo, Signal, demo_start_worker, demo_signal}
use platform_forge.Worker.Slot.{Turn, SlotSettings, slot_loop}
use platform_forge.Worker.{new_flags}
use platform_forge.Worker.Drain.{GoesWell}
use platform_forge.Worker.Turns.{IsIdle}
use platform_forge.Worker.Termination.{slot_loop-IsIdle}
use platform_forge.Views.Gauges.{runnable_gauge}
use platform_forge.Views.Load.{load_job_view, job_view}
use platform_forge.Views.Json.{leaves, shape, written, jsonable-leaves}
use platform_forge.Claims.Load.{load_job}
use platform_forge.Claims.Jsonable.{jsonable}
use platform_forge.Claims.Gauges.{gauge_snapshot, age_of, least_run_after, group_by_status}
use platform_forge.Claims.Claim.{claimable, job_with}
use platform_forge.Claims.Cancel.{cancel_job, replay_step}
use platform_forge.Registry.{Step}
use platform_forge.Store.{missing_job}
use platform_forge.Effects.{at, published}
use platform_forge.Effects.Cancel.{named}
use platform_forge.Lifecycle.{offered}
use platform_forge.Examples.Data.{payload, no_locks, submitted_db, claimed_db, backoff, claim_of}
use platform_forge.Examples.Runs.{submitted-IsSound, dead_db, steal_history}
use platform_forge.Lifecycle.{offered}
use platform_forge.Prelude.{
  ℕ, String, [], ◌∷◌, none, some, ok, err, true, false, refl, arith, find, select, count,
  if◌then◌else◌, ◌≡◌, there, here, map,
}

abbrev str_uuid : ℕ → String
str_uuid n = "an id"

abbrev isoformat : ℕ → String
isoformat n = "a time"

abbrev repr : String → String
repr s = s

abbrev a_body : SubmitBody
a_body = record { workflow_name = "linear_naive"; idempotency_key = "k1"; input = payload }

abbrev notify_step : Step ℕ
notify_step = record { name = "notify"; handler = 1; max_attempts = 5; timeout_seconds = 10 }

cancel_answers_example :
    outcome_of (cancel str_uuid isoformat repr 10 (at submitted_db []))
    ≡ (elim (job_with 10 submitted_db) [
      | none ↦ (some 404, submitted_db)
      | some j ↦
          if is_active j.status
          then (some 200, published (cancel_job 10 (at submitted_db [])))
          else (some 409, submitted_db)
    ])
cancel_answers_example =
    cancel_answers str_uuid isoformat repr 10 submitted_db [] submitted-IsSound.inv

replay_answers_example :
    outcome_of (replay str_uuid isoformat repr 10 "charge" (at dead_db []))
    ≡ (elim (job_with 10 dead_db) [
      | none ↦ (some 404, dead_db)
      | some j ↦ elim (find (named 10 "charge") dead_db.steps) [
        | none ↦ (some 404, dead_db)
        | some s ↦
            if is_dead_lettered s.status
            then (some 200, published (replay_step 10 "charge" (at dead_db [])))
            else (some 409, dead_db)
      ]
    ])
replay_answers_example = replay_answers str_uuid isoformat repr 10 "charge" dead_db []

abbrev str_nat : ℕ → String
str_nat n = "a number"

abbrev after_start : Demo
after_start = (demo_start_worker true str_nat 7 no_demo).1

abbrev after_kill : Demo
after_kill =
    (demo_signal true str_nat (λ p. true) 8 Signal.sigkill "killed" "SIGKILL" after_start).1

runnable_gauge_example :
    (gauge_snapshot (at submitted_db [])).0
    ≡ ok (record {
      runnable = count (claimable submitted_db) submitted_db.steps;
      oldest_age =
          age_of 1000 (least_run_after (select (claimable submitted_db) submitted_db.steps));
      dead_lettered = count (λ s. is_dead_lettered s.status) submitted_db.steps;
      jobs_by_status = group_by_status submitted_db.jobs;
    })
runnable_gauge_example = runnable_gauge submitted_db submitted-IsSound.inv []

load_job_view_example : load_job 10 (at claimed_db []) ≡ (
  elim (job_with 10 claimed_db) [
    | none ↦ err (missing_job 10)
    | some j ↦ ok (job_view 10 (at claimed_db []) j)
  ],
  at claimed_db [],
)
load_job_view_example = load_job_view 10 (at claimed_db [])

abbrev nested : Value
nested = dict (field "id" (uuid 10) (field "ids" (array (item (uuid 11) nil)) end))

jsonable-leaves_example :
    (leaves (jsonable str_uuid isoformat nested) ≡ map (written str_uuid isoformat) (leaves nested))
    × (shape (jsonable str_uuid isoformat nested) ≡ shape nested)
jsonable-leaves_example = jsonable-leaves str_uuid isoformat nested

abbrev good_turn : Turn
good_turn = record {
  claim_fails = false;
  locked = no_locks;
  notify_fails = false;
  execute_fails = false;
  ran = λ c. (some payload, none);
  flags = new_flags;
}

abbrev slot_settings : SlotSettings
slot_settings = record {
  worker_id = "w1";
  lease_ttl = 15;
  poll_interval = 250000;
  listening = true;
  backoff = backoff;
}

good_turn-GoesWell : GoesWell good_turn
good_turn-GoesWell = record {
  claims = refl;
  unlocked = λ id. refl;
  executes = refl;
  returns = λ c. (payload, refl);
  uncancelled = refl;
}

slot_loop-IsIdle_example :
    IsIdle
      (slot_loop slot_settings
        (good_turn ∷ good_turn ∷ [])
        (record { session = at submitted_db []; pauses = [] })).session.committed
unfolding count
slot_loop-IsIdle_example =
    slot_loop-IsIdle slot_settings (good_turn ∷ good_turn ∷ [])
      (record { session = at submitted_db []; pauses = [] })
      (good_turn-GoesWell, (good_turn-GoesWell, tt))
      (record { inv = submitted-IsSound.inv; clean = refl }) (omega arith)

-- The claim of w1 and the claim by which w2 stole its step.
effect_key_stable_example :
    (context_of (claim_of 1 false) "w1").idempotency_key
    ≡ (context_of (claim_of 2 true) "w2").idempotency_key
effect_key_stable_example =
    effect_key_stable (empty-IsSound 1000) steal_history (claim_of 1 false) (claim_of 2 true) "w1"
      "w2" (there here) here refl
