-- ===== src/Api.antt =====
-- src/workflow_engine/api.py: the endpoints, as functions from the session of the database to a response.
-- Routing, validation of the request and the 500 for an exception that nothing catches are the web
-- framework's: such an exception is the result `err`.
pub mod Jobs
pub mod Body
pub mod Demo
pub mod Laws
pub mod Signals
pub mod Create
pub mod Workflows
pub mod Status
use platform_forge.Models.Values.{text, end, field, dict}
use platform_forge.Models.{Value}
use platform_forge.Prelude.{ℕ, String}

pub record Response : Type 0 where
  pub code : ℕ
  pub content : Value

-- The body {"code": code, "message": message}.
abbrev pub fault : String → String → Value
fault code message = dict (field "code" (text code) (field "message" (text message) end))

-- `_error`
abbrev pub error_response : ℕ → String → String → Response
error_response status code message = record { code = status; content = fault code message }

-- raise HTTPException(status_code, detail), as the framework answers it.
abbrev pub http_exception : ℕ → String → String → Response
http_exception status code message = record {
  code = status;
  content = dict (field "detail" (fault code message) end);
}

-- A return with no status of its own.
abbrev pub answer : Value → Response
answer v = record { code = 200; content = v }
