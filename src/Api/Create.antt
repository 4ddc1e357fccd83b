-- ===== src/Api/Create.antt =====
-- The answers of POST /jobs.
use platform_forge.Api.{Response}
use platform_forge.Metrics.{Metric}
use platform_forge.Models.{Db, JobRow}
use platform_forge.Registry.{Workflow, get}
use platform_forge.Store.{Error, Session}
use platform_forge.Claims.Complete.{is_found}
use platform_forge.Claims.Submit.{new_job, submit_job, has_key}
use platform_forge.Api.Jobs.{create_job, jobs, SubmitBody}
use platform_forge.Effects.{at}
use platform_forge.Prelude.{
  ℕ, List, String, Result, any, Bool, ◌≡◌, false, true, some, Option, insert,
}

module _ {ℓ} {H : Type ℓ} (str_uuid isoformat : ℕ → String) (repr : String → String) (uuid4 : ℕ → ℕ)
    (registry : List (Workflow H)) (body : SubmitBody) (d : Db) (ms : List Metric) where
  abbrev created : Result Error Response × Session
  created = create_job str_uuid isoformat repr uuid4 registry body (at d ms)

  abbrev submitted : Result Error (ℕ × Bool) × Session
  submitted = submit_job uuid4 registry body.workflow_name body.idempotency_key body.input (at d ms)

  abbrev mine : JobRow → Bool
  mine = has_key body.workflow_name body.idempotency_key

  abbrev known : Bool
  known = is_found (get registry body.workflow_name)

  -- The answers of POST /jobs, each with the tables after it.
  pub data Answered : Option ℕ × Db → Type ℓ where
    unknown : known ≡ false → Answered (some 400, d)
    repeated : known ≡ true → any mine d.jobs ≡ true → Answered (some 200, d)
    accepted :
        {d' : Db}
        → known ≡ true
        → any mine d.jobs ≡ false
        → d'.jobs
          ≡ insert
              (new_job d.now (uuid4 0) body.workflow_name body.idempotency_key body.input)
              d.jobs
        → Answered (some 201, d')
