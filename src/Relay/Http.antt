-- ===== src/Relay/Http.antt =====
-- The requests and answers that `HandleRelay` and its helpers pass on, and a chain of tests that
-- rejects a request with `ctx.Error`.
use cli_relay.Prelude.{ℕ, String, Bool, true, false}
use cli_relay.Json.{Json, text, object, end, field}

-- A body is the JSON value it decodes to, or a text that is no JSON.
pub data Body : Type 0 where
  json : Json → Body
  raw : String → Body

-- What `fasthttp.RequestCtx` tells of the client's request; a header that is missing is empty.
pub record Request : Type 0 where
  pub path : String
  pub method : String
  pub authorization : String
  pub remote_ip : String
  pub x_real_ip : String
  pub x_forwarded_for : String
  pub content : Body

pub record Response : Type 0 where
  pub status : ℕ
  pub content : Body

-- A call of the upstream service.
pub record UpstreamRequest : Type 0 where
  pub url : String
  pub method : String
  pub headers : String
  pub content : Body

-- `ctx.Error` with the body `{"error": ...}`.
abbrev pub error_response : ℕ → String → Response
error_response status message = record {
  status = status;
  content = json (object (field "error" (text message) end));
}

pub data Checked {ℓ} (A : Type ℓ) : Type ℓ where
  pass : A → Checked A
  reject : Response → Checked A

infixl 5 ◌>>=◌
abbrev pub ◌>>=◌ {ℓ κ} :
    {Value : Type ℓ} {Next : Type κ} → Checked Value → (Value → Checked Next) → Checked Next
reject response >>= next = reject response
pass value >>= next = next value

-- `if !test { ctx.Error(message, status); return }`
abbrev pub require : Bool → ℕ → String → Checked (Unit {0})
require true status message = pass tt
require false status message = reject (error_response status message)
