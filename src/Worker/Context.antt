-- ===== src/Worker/Context.antt =====
-- `_effect_key` and the context that `_run_handler` of src/workflow_engine/worker.py gives to a handler.
use platform_forge.Claims.Claimed.{ClaimedStep}
use platform_forge.Handlers.{StepContext}
use Prim.Native.String.{◌++◌ as str_append}
use platform_forge.Prelude.{String}

unfoldable pub effect_key : ClaimedStep → String
effect_key c =
    str_append c.workflow_name
      (str_append ":" (str_append c.idempotency_key (str_append ":" c.name)))

-- ctx, without its two callbacks.
unfoldable pub context_of : ClaimedStep → String → StepContext
context_of c worker_id = record {
  job_id = c.job_id;
  step_id = c.step_id;
  step_name = c.name;
  seq = c.seq;
  attempt_count = c.attempt_count;
  fencing_token = c.fencing_token;
  worker_id = worker_id;
  idempotency_key = effect_key c;
  workflow_name = c.workflow_name;
  job_input = c.job_input;
  upstream_outputs = c.upstream_outputs;
}
