-- ===== src/Handlers.antt =====
-- src/workflow_engine/handlers.py, the handlers that write the ledger `lab_effects`, and those that
-- do nothing but return or raise. A crash (os._exit) is a result of its own, after which the worker is
-- gone; the connection that a handler takes from the pool is the session that it runs in.
pub mod Effect
pub mod Http
pub mod Hosts
pub mod Lab
use platform_forge.Models.{Db, EffectRow, Value}
use platform_forge.Models.Values.{bool, end, text, dict, field}
use platform_forge.Store.{pure, query, ◌>>◌, ◌>>=◌, execute, commit, M}
use platform_forge.Prelude.{
  ℕ, if◌then◌else◌, leb, not, any, String, update, true, Bool, ◌+◌, Option, str_eq, List, insert,
}

-- `StepContext` of models.py, without the callbacks `should_stop` and `get_conn`.
pub record StepContext : Type 0 where
  pub job_id : ℕ
  pub step_id : ℕ
  pub step_name : String
  pub seq : ℕ
  pub attempt_count : ℕ
  pub fencing_token : ℕ
  pub worker_id : String
  pub idempotency_key : String
  pub workflow_name : String
  pub job_input : Value
  pub upstream_outputs : List (String × Option Value)

-- How a handler ends.
pub data Ended : Type 0 where
  returned : Value → Ended
  raised : String → Ended
  exited : Ended

abbrev pub has_effect : String → EffectRow → Bool
has_effect key e = str_eq e.effect_key key

-- The row that an INSERT adds.
abbrev pub new_effect : ℕ → StepContext → EffectRow
new_effect now ctx = record {
  effect_key = ctx.idempotency_key;
  write_count = 1;
  first_token = ctx.fencing_token;
  last_token = ctx.fencing_token;
  last_worker_id = ctx.worker_id;
  updated_at = now;
}

-- DO UPDATE SET
abbrev pub count_write : ℕ → StepContext → EffectRow → EffectRow
count_write now ctx e = record e {
  write_count = e.write_count + 1;
  last_token = ctx.fencing_token;
  last_worker_id = ctx.worker_id;
  updated_at = now;
}

-- INSERT ... ON CONFLICT (effect_key) DO UPDATE
unfoldable pub upsert_effect : StepContext → Db → Db
upsert_effect ctx d = record d {
  effects =
      if any (has_effect ctx.idempotency_key) d.effects
      then update (has_effect ctx.idempotency_key) (count_write d.now ctx) d.effects
      else insert (new_effect d.now ctx) d.effects;
}

-- `_write_naive`
unfoldable pub write_naive : StepContext → M (Unit {0})
write_naive ctx = execute (upsert_effect ctx) >> commit

-- INSERT ... ON CONFLICT (effect_key) DO NOTHING
unfoldable pub insert_effect : StepContext → Db → Db
insert_effect ctx d = record d {
  effects =
      if any (has_effect ctx.idempotency_key) d.effects
      then d.effects
      else insert (new_effect d.now ctx) d.effects;
}

-- `_write_idempotent`: whether the row was inserted.
unfoldable pub write_idempotent : StepContext → M Bool
write_idempotent ctx = do
  conflict ← query (λ d. any (has_effect ctx.idempotency_key) d.effects)
  execute (insert_effect ctx)
  commit
  pure (not conflict)

unfoldable pub noop : StepContext → M Ended
noop ctx = pure (returned (dict end))

unfoldable pub echo : StepContext → M Ended
echo ctx = pure (returned (dict (field "echo" ctx.job_input end)))

unfoldable pub always_fail : StepContext → M Ended
always_fail ctx = pure (raised "always_fail")

unfoldable pub pg_effect_naive : StepContext → M Ended
pg_effect_naive ctx = do
  write_naive ctx
  pure (
      returned
        (dict (field "mode" (text "naive") (field "effect_key" (text ctx.idempotency_key) end))))

unfoldable pub pg_effect_idempotent : StepContext → M Ended
pg_effect_idempotent ctx = do
  inserted ← write_idempotent ctx
  pure (
      returned (
        dict (
          field "mode" (text "idempotent") (
            field "effect_key" (text ctx.idempotency_key) (field "inserted" (bool inserted) end)))))

-- What a handler that crashes on its first attempt returns on a later one.
abbrev recovered : String → StepContext → Ended
recovered mode ctx = returned (
    dict (
      field "mode" (text mode)
        (field "recovered" (bool true) (field "effect_key" (text ctx.idempotency_key) end))))

unfoldable pub crash_after_naive : StepContext → M Ended
crash_after_naive ctx = do
  write_naive ctx
  pure (if leb ctx.attempt_count 1 then exited else recovered "naive" ctx)

unfoldable pub crash_after_idempotent : StepContext → M Ended
crash_after_idempotent ctx = do
  _ ← write_idempotent ctx
  pure (if leb ctx.attempt_count 1 then exited else recovered "idempotent" ctx)
