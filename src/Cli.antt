-- ===== src/Cli.antt =====
-- `main` of src/workflow_engine/cli.py after the arguments are parsed: the request that a command sends, and
-- how the program ends. `UUID`, `json.loads` and `json.dumps` are arguments, and so is what the client
-- answers.
use platform_forge.Models.{Value}
use platform_forge.Models.Values.{dict, field, text, bool, end, Fields}
use platform_forge.Prelude.{
  ℕ, Bool, Option, none, some, Result, ok, err, String, if◌then◌else◌, leb, true, str_eq, ◌||◌,
}
use Prim.Native.String.{◌++◌ as str_append}

-- `args`, by its `cmd`.
pub data Command : Type 0 where
  submit : String → String → String → Command
  get : String → Command
  list_all : Option String → Bool → Command
  cancel : String → Command
  replay : String → String → Command
  workflows health : Command

-- What is asked of the client: `client.post` or `client.get`.
pub data Sent : Type 0 where
  post : String → Option Value → Sent
  fetch : String → Fields → Sent

-- A response; reading its body as JSON may raise.
pub record Answer : Type 0 where
  pub status_code : ℕ
  pub json : Result String Value

-- The end of the program: its output and its exit status, or the exception.
pub data Exit : Type 0 where
  printed : String → ℕ → Exit
  raised : String → Exit

-- `_base`
unfoldable pub base : String → String → String
base api_host api_port =
    let host =
      if str_eq api_host "0.0.0.0" || str_eq api_host "::" then "127.0.0.1" else api_host in
    str_append "http://" (str_append host (str_append ":" api_port))

-- `params`
abbrev list_params : Option String → Bool → Fields
list_params status stuck =
    let stuck_field : Fields = if stuck then field "stuck" (bool true) end else end in
    elim status [
      | none ↦ stuck_field
      | some s ↦ if str_eq s "" then stuck_field else field "status" (text s) stuck_field
    ]

module _ (uuid_text : String → Result String String) (loads : String → Result String Value) where
  unfoldable pub request_for : Command → Result String Sent
  request_for (submit workflow key input) = elim (loads input) [
    | err e ↦ err e
    | ok v ↦ ok (
        post "/jobs" (
          some (
            dict (
              field "workflow_name" (text workflow)
                (field "idempotency_key" (text key) (field "input" v end))))))
  ]
  request_for (get job_id) = ok (fetch (str_append "/jobs/" job_id) end)
  request_for (list_all status stuck) = ok (fetch "/jobs" (list_params status stuck))
  request_for (cancel job_id) = elim (uuid_text job_id) [
    | err e ↦ err e
    | ok id ↦ ok (post (str_append "/jobs/" (str_append id "/cancel")) none)
  ]
  request_for (replay job_id step) = elim (uuid_text job_id) [
    | err e ↦ err e
    | ok id ↦ ok (
        post
          (str_append "/jobs/" (str_append id (str_append "/steps/" (str_append step "/replay"))))
          none)
  ]
  request_for workflows = ok (fetch "/workflows" end)
  request_for health = ok (fetch "/health" end)

  unfoldable pub main : (Value → String) → (Sent → Answer) → Command → Exit
  main dumps client args = elim (request_for args) [
    | err e ↦ raised e
    | ok sent ↦
        let resp = client sent in
        elim resp.json [
          | err e ↦ raised e
          | ok v ↦ printed (str_append (dumps v) "\n") (if leb 400 resp.status_code then 1 else 0)
        ]
  ]
