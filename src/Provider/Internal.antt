-- ===== src/Provider/Internal.antt =====
-- internal/relay/provider/types.go: the internal form that requests and responses of every format
-- are converted to. A pointer is an option. The map `Metadata`, which nothing reads, is left out.
use cli_relay.Prelude.{String, Bool, Option, List, ◌≡◌}
use cli_relay.Prelude.Int.{ℤ}
use cli_relay.Json.{Json}

-- `type` is `text`, `image_url`, or what the client wrote.
pub record InternalContentPart : Type 0 where
  pub type : String
  pub content : String
  pub image_url : Option String

-- The arguments are a text that holds JSON.
pub record InternalToolCall : Type 0 where
  pub id : String
  pub name : String
  pub arguments : String

pub record InternalToolResult : Type 0 where
  pub tool_call_id : String
  pub name : String
  pub content : String
  pub is_error : Bool

pub record InternalMessage : Type 0 where
  pub role : String
  pub content : List InternalContentPart
  pub tool_calls : List InternalToolCall
  pub tool_result : Option InternalToolResult

pub record InternalTool : Type 0 where
  pub type : String
  pub name : String
  pub description : String
  pub parameters : Json

-- `type` is `auto`, `none`, `required` or `function`.
pub record InternalToolChoice : Type 0 where
  pub type : String
  pub function : String

pub record InternalRequest : Type 0 where
  pub model : String
  pub messages : List InternalMessage
  pub tools : List InternalTool
  pub tool_choice : Option InternalToolChoice
  pub stream : Bool
  pub max_tokens : Option ℤ
  pub temperature : Option ℤ
  pub top_p : Option ℤ
  pub stop_words : List String

pub record InternalChoice : Type 0 where
  pub index : ℤ
  pub message : InternalMessage
  pub finish_reason : String

pub record InternalUsage : Type 0 where
  pub prompt_tokens : ℤ
  pub completion_tokens : ℤ

pub record InternalResponse : Type 0 where
  pub id : String
  pub model : String
  pub choices : List InternalChoice
  pub usage : InternalUsage

-- Requests are equal that agree in every field.
pub request_ext :
    {a b : InternalRequest}
    → a.model ≡ b.model
    → a.messages ≡ b.messages
    → a.tools ≡ b.tools
    → a.tool_choice ≡ b.tool_choice
    → a.stream ≡ b.stream
    → a.max_tokens ≡ b.max_tokens
    → a.temperature ≡ b.temperature
    → a.top_p ≡ b.top_p
    → a.stop_words ≡ b.stop_words
    → a ≡ b
request_ext model messages tools choice stream bound temperature top_p stops = λ i. record {
  model = model i;
  messages = messages i;
  tools = tools i;
  tool_choice = choice i;
  stream = stream i;
  max_tokens = bound i;
  temperature = temperature i;
  top_p = top_p i;
  stop_words = stops i;
}

pub response_ext :
    {a b : InternalResponse}
    → a.id ≡ b.id
    → a.model ≡ b.model
    → a.choices ≡ b.choices
    → a.usage ≡ b.usage
    → a ≡ b
response_ext id model choices usage =
    λ i. record { id = id i; model = model i; choices = choices i; usage = usage i }

pub tool_ext :
    {a b : InternalTool}
    → a.type ≡ b.type
    → a.name ≡ b.name
    → a.description ≡ b.description
    → a.parameters ≡ b.parameters
    → a ≡ b
tool_ext type name description parameters = λ i. record {
  type = type i;
  name = name i;
  description = description i;
  parameters = parameters i;
}
