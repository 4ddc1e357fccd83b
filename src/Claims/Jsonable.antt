-- ===== src/Claims/Jsonable.antt =====
-- `jsonable` of src/workflow_engine/claims.py, and the dictionary of a job that `load_job` returns.
-- `str` of a uuid and `isoformat` of a datetime are arguments.
use platform_forge.Metrics.{outcome_text}
use platform_forge.Claims.Load.{StepView, JobView}
use platform_forge.Models.{AttemptRow, status_text, step_status_text, Value}
use platform_forge.Models.Values.{
  item, end, Fields, dict, Items, datetime, array, null, text, bool, nil, nat, neg, field, uuid,
}
use platform_forge.Prelude.{ℕ, ◌∷◌, String, [], List, Option, some, none}

module _ (str_uuid isoformat : ℕ → String) where
  unfoldable mutual
    pub jsonable : Value → Value
    jsonable null = null
    jsonable (bool b) = bool b
    jsonable (nat n) = nat n
    jsonable (neg n) = neg n
    jsonable (text s) = text s
    jsonable (uuid n) = text (str_uuid n)
    jsonable (datetime n) = text (isoformat n)
    jsonable (array xs) = array (jsonable_items xs)
    jsonable (dict fs) = dict (jsonable_fields fs)

    pub jsonable_items : Items → Items
    jsonable_items nil = nil
    jsonable_items (item x xs) = item (jsonable x) (jsonable_items xs)

    pub jsonable_fields : Fields → Fields
    jsonable_fields end = end
    jsonable_fields (field k x fs) = field k (jsonable x) (jsonable_fields fs)

-- A column that may be NULL.
abbrev or_null {ℓ} : {A : Type ℓ} → (A → Value) → Option A → Value
or_null f none = null
or_null f (some a) = f a

-- dict(attempt)
unfoldable pub attempt_value : AttemptRow → Value
unfolding outcome_text
attempt_value a = dict (
    field "id" (nat a.id) (
      field "step_id" (uuid a.step_id) (
        field "fencing_token" (nat a.fencing_token) (
          field "worker_id" (text a.worker_id) (
            field "started_at" (datetime a.started_at) (
              field "finished_at" (or_null datetime a.finished_at) (
                field "outcome" (text (outcome_text a.outcome))
                  (field "error" (or_null text a.error) end))))))))

unfoldable pub attempt_values : List AttemptRow → Items
attempt_values [] = nil
attempt_values (a ∷ rest) = item (attempt_value a) (attempt_values rest)

-- dict(step), with its attempts.
unfoldable pub step_value : StepView → Value
step_value v =
    let s = v.step in
    dict (
      field "id" (uuid s.id) (
        field "job_id" (uuid s.job_id) (
          field "seq" (nat s.seq) (
            field "name" (text s.name) (
              field "status" (text (step_status_text s.status)) (
                field "run_after" (datetime s.run_after) (
                  field "leased_until" (or_null datetime s.leased_until) (
                    field "worker_id" (or_null text s.worker_id) (
                      field "fencing_token" (nat s.fencing_token) (
                        field "attempt_count" (nat s.attempt_count) (
                          field "max_attempts" (nat s.max_attempts) (
                            field "timeout_seconds" (nat s.timeout_seconds) (
                              field "output" (or_null (λ o. o) s.output) (
                                field "last_error" (or_null text s.last_error) (
                                  field "updated_at" (datetime s.updated_at) (
                                    field "attempts" (array (attempt_values v.attempts))
                                      end))))))))))))))))

unfoldable pub step_values : List StepView → Items
step_values [] = nil
step_values (v ∷ rest) = item (step_value v) (step_values rest)

-- The dictionary that `load_job` returns.
unfoldable pub job_value : JobView → Value
job_value v =
    let j = v.job in
    dict (
      field "id" (uuid j.id) (
        field "workflow_name" (text j.workflow_name) (
          field "idempotency_key" (text j.idempotency_key) (
            field "status" (text (status_text j.status)) (
              field "input" j.input (
                field "created_at" (datetime j.created_at) (
                  field "updated_at" (datetime j.updated_at)
                    (field "steps" (array (step_values v.steps)) end))))))))

unfoldable pub job_values : List JobView → Items
job_values [] = nil
job_values (v ∷ rest) = item (job_value v) (job_values rest)
