-- ===== src/Api/Jobs.antt =====
-- The endpoints on jobs, /lab/effects, /ops/snapshot and /health. `str` of a uuid, `isoformat` and the
-- `repr` by which a KeyError prints its key are arguments.
use platform_forge.Claims.Returned.{submit_and_load, replay_and_load, cancel_and_load}
use platform_forge.Claims.Load.{load_job, list_jobs}
use platform_forge.Models.{Value, JobStatus, status_text, EffectRow}
use platform_forge.Claims.Jsonable.{job_value, jsonable, job_values}
use platform_forge.Api.{http_exception, error_response, answer, Response}
use platform_forge.Registry.{get, Workflow}
use platform_forge.Claims.Submit.{char_length}
use platform_forge.Models.Values.{
  nat, dict, item, Fields, array, Items, end, nil, datetime, text, field,
}
use platform_forge.Claims.Gauges.{gauge_snapshot, Snapshot}
use platform_forge.Store.{
  query, Session, connection, missing_job, not_dead_lettered, missing_step, Error,
  conflict_terminal,
}
use Prim.Native.String.{◌++◌ as str_append}
use platform_forge.Prelude.{
  ℕ, order_down, Bool, [], String, if◌then◌else◌, some, ◌∷◌, none, Result, ok, take, List, Option,
  true, err, false, ◌≤◌,
}

-- `SubmitBody`
pub record SubmitBody : Type 0 where
  pub workflow_name : String
  pub idempotency_key : String
  pub input : Value

-- The bounds of its fields.
abbrev pub IsValidBody : SubmitBody → Type 0
IsValidBody b =
    ((1 ≤ char_length b.workflow_name) × (char_length b.workflow_name ≤ 100))
    × ((1 ≤ char_length b.idempotency_key) × (char_length b.idempotency_key ≤ 200))

-- except PermissionError
abbrev pub is_permission_error : Error → Bool
is_permission_error e = elim e [ conflict_terminal ↦ true | not_dead_lettered ↦ true | _ ↦ false ]

module _ (str_uuid isoformat : ℕ → String) (repr : String → String) where
  -- The key of a KeyError.
  abbrev pub key_of : Error → Option String
  key_of e = elim e [
    | missing_job id ↦ some (str_uuid id)
    | missing_step name ↦ some name
    | _ ↦ none
  ]

  unfoldable pub create_job {ℓ} :
      {H : Type ℓ}
      → (ℕ → ℕ)
      → List (Workflow H)
      → SubmitBody
      → Session
      → Result Error Response × Session
  create_job uuid4 registry body s = elim (get registry body.workflow_name) [
    | none ↦ (
      ok (
          error_response 400 "unknown_workflow"
            (str_append "unknown workflow " body.workflow_name)),
      s,
    )
    | some _ ↦
        let (r, s') =
          connection
            (submit_and_load uuid4 registry body.workflow_name body.idempotency_key body.input) s in
        elim r [
          | ok (job, created) ↦ (
            ok (record {
              code = if created then 201 else 200;
              content = jsonable str_uuid isoformat (job_value job);
            }),
            s',
          )
          | err e ↦ (err e, s')
        ]
  ]

  unfoldable pub jobs : Option String → Bool → ℕ → Session → Result Error Response × Session
  jobs status stuck limit s =
      let (r, s') = connection (list_jobs status stuck limit) s in
      elim r [
        | ok items ↦ (
          ok (
              answer
                (dict (field "jobs" (jsonable str_uuid isoformat (array (job_values items))) end))),
          s',
        )
        | err e ↦ (err e, s')
      ]

  unfoldable pub get_job : ℕ → Session → Result Error Response × Session
  get_job job_id s =
      let (r, s') = connection (load_job job_id) s in
      elim r [
        | ok job ↦ (ok (answer (jsonable str_uuid isoformat (job_value job))), s')
        | err e ↦ elim (key_of e) [
          | some _ ↦ (ok (http_exception 404 "not_found" (str_uuid job_id)), s')
          | none ↦ (err e, s')
        ]
      ]

  unfoldable pub cancel : ℕ → Session → Result Error Response × Session
  cancel job_id s =
      let (r, s') = connection (cancel_and_load job_id) s in
      elim r [
        | ok job ↦ (ok (answer (jsonable str_uuid isoformat (job_value job))), s')
        | err e ↦ elim (key_of e) [
          | some _ ↦ (ok (http_exception 404 "not_found" (str_uuid job_id)), s')
          | none ↦
              if is_permission_error e
              then (ok (error_response 409 "conflict_terminal" "job is already terminal"), s')
              else (err e, s')
        ]
      ]

  unfoldable pub replay : ℕ → String → Session → Result Error Response × Session
  replay job_id step s =
      let (r, s') = connection (replay_and_load job_id step) s in
      elim r [
        | ok job ↦ (ok (answer (jsonable str_uuid isoformat (job_value job))), s')
        | err e ↦ elim (key_of e) [
          | some key ↦ (ok (http_exception 404 "not_found" (repr key)), s')
          | none ↦
              if is_permission_error e
              then (ok (error_response 409 "not_dead_lettered" "step is not dead-lettered"), s')
              else (err e, s')
        ]
      ]

  -- dict(r) of a row of lab_effects.
  abbrev pub effect_value : EffectRow → Value
  effect_value e = dict (
      field "effect_key" (text e.effect_key) (
        field "write_count" (nat e.write_count) (
          field "first_token" (nat e.first_token) (
            field "last_token" (nat e.last_token) (
              field "last_worker_id" (text e.last_worker_id)
                (field "updated_at" (datetime e.updated_at) end))))))

  unfoldable pub effect_values : List EffectRow → Items
  effect_values [] = nil
  effect_values (e ∷ rest) = item (effect_value e) (effect_values rest)

  unfoldable pub lab_effects : Session → Result Error Response × Session
  lab_effects s =
      let (r, s') =
        connection (query (λ d. take 100 (order_down (λ e. e.updated_at) d.effects))) s in
      elim r [
        | ok rows ↦ (
          ok (
              answer (
                dict (
                  field "effects" (jsonable str_uuid isoformat (array (effect_values rows))) end))),
          s',
        )
        | err e ↦ (err e, s')
      ]

unfoldable pub status_fields : List (JobStatus × ℕ) → Fields
unfolding status_text
status_fields [] = end
status_fields ((t, n) ∷ rest) = field (status_text t) (nat n) (status_fields rest)

-- The dictionary of `gauge_snapshot`, with the age in microseconds.
abbrev pub snapshot_value : Snapshot → Value
snapshot_value n = dict (
    field "runnable" (nat n.runnable) (
      field "oldest_age" (nat n.oldest_age) (
        field "dead_lettered" (nat n.dead_lettered)
          (field "jobs_by_status" (dict (status_fields n.jobs_by_status)) end))))

unfoldable pub ops_snapshot :
    (ℕ → String) → (ℕ → String) → Session → Result Error Response × Session
ops_snapshot str_uuid isoformat s =
    let (r, s') = connection gauge_snapshot s in
    elim r [
      | ok snap ↦ (ok (answer (jsonable str_uuid isoformat (snapshot_value snap))), s')
      | err e ↦ (err e, s')
    ]
