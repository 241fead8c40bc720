-- ===== src/Provider/OpenAi/Build.antt =====
-- internal/relay/provider/openai/to_internal.go: the internal form, written as a request of the
-- Chat Completions API and of the Responses API.
use cli_relay.Prelude.{
  ℕ, suc, String, Bool, true, Option, none, some, List, [], ◌∷◌, map, if◌then◌else◌, ◌==◌, ◌&&◌,
  ◌||◌, not, is_some,
}
use cli_relay.Prelude.Int.{ℤ, pos}
use cli_relay.Prelude.Text.{append}
use cli_relay.Prelude.Results.{Result, ok}
use cli_relay.Json.{Json, boolean, number, text, array, object, Fields, end, field, of_int}
use cli_relay.Relay.Http.{Body, json}
use cli_relay.Provider.Internal.{
  InternalRequest, InternalMessage, InternalContentPart, InternalToolCall, InternalToolResult,
  InternalTool, InternalToolChoice,
}
use cli_relay.Provider.Values.{put, put_some, items, nil_or_array}

abbrev pub some_number : Option ℤ → Option Json
some_number none = none
some_number (some x) = some (number x)

abbrev pub some_int : Option ℤ → Option Json
some_int none = none
some_int (some n) = some (number (of_int n))

-- `if len(list) > 0 { m[key] = list }`
unfoldable pub some_array : List Json → Option Json
unfolding items
some_array [] = none
some_array (v ∷ vs) = some (array (items (v ∷ vs)))

abbrev url_object : Option String → Option Json
url_object none = none
url_object (some url) = some (object (field "url" (text url) end))

unfoldable pub build_open_ai_part : InternalContentPart → Fields
unfolding put put_some
build_open_ai_part part =
    let p = field "type" (text part.type) end in
    if part.type == "text"
    then put "text" (text part.content) p
    else if part.type == "image_url"
    then put_some "image_url" (url_object part.image_url) p
    else p

-- A text without an image.
abbrev pub is_plain : InternalContentPart → Bool
is_plain part = part.type == "text" && not (is_some part.image_url)

abbrev pub part_array : List InternalContentPart → Json
part_array parts = array (items (map (λ p. object (build_open_ai_part p)) parts))

-- A single plain text is written as a string.
abbrev pub open_ai_content : InternalContentPart → List InternalContentPart → Json
open_ai_content part [] = if is_plain part then text part.content else part_array (part ∷ [])
open_ai_content part (next ∷ parts) = part_array (part ∷ next ∷ parts)

abbrev pub build_tool_call : ℕ → InternalToolCall → Fields
build_tool_call i itc = field "index" (number (of_int (pos i))) (
    field "id" (text itc.id) (
      field "type" (text "function") (
        field "function"
          (object (field "name" (text itc.name) (field "arguments" (text itc.arguments) end)))
          end)))

unfoldable pub build_tool_calls : ℕ → List InternalToolCall → List Json
build_tool_calls i [] = []
build_tool_calls i (itc ∷ rest) = object (build_tool_call i itc) ∷ build_tool_calls (suc i) rest

abbrev pub content_field : String → List InternalContentPart → Option Json
content_field role [] = if role == "tool" then none else some (text "")
content_field role (part ∷ parts) = some (open_ai_content part parts)

abbrev pub put_tool_result : Option InternalToolResult → Fields → Fields
put_tool_result none msg = msg
put_tool_result (some result) msg =
    put "content" (text result.content) (put "tool_call_id" (text result.tool_call_id) msg)

unfoldable pub build_open_ai_message : InternalMessage → Fields
unfolding put_some some_array build_tool_calls
build_open_ai_message im =
    let msg = field "role" (text im.role) end in
    let msg = put_some "content" (content_field im.role im.content) msg in
    let msg = put_some "tool_calls" (some_array (build_tool_calls 0 im.tool_calls)) msg in
    put_tool_result im.tool_result msg

abbrev pub build_open_ai_tool : InternalTool → Fields
build_open_ai_tool it = field "type" (text it.type) (
    field "function"
      (object (
        field "name" (text it.name)
          (field "description" (text it.description) (field "parameters" it.parameters end))))
      end)

abbrev pub is_mode : String → Bool
is_mode type = type == "auto" || type == "none" || type == "required"

unfoldable pub build_open_ai_tool_choice : Option InternalToolChoice → Option Json
build_open_ai_tool_choice none = none
build_open_ai_tool_choice (some choice) = some (
    if is_mode choice.type
    then text choice.type
    else object (
        field "type" (text "function")
          (field "function" (object (field "name" (text choice.function) end)) end)))

abbrev pub object_of : {A : Type 0} → (A → Fields) → A → Json
object_of build x = object (build x)

unfoldable pub open_ai_request : InternalRequest → Fields
unfolding put put_some build_open_ai_message build_open_ai_tool_choice some_array items
open_ai_request req =
    let oai = put "stream" (boolean req.stream) (field "model" (text req.model) end) in
    let oai = put_some "max_tokens" (some_int req.max_tokens) oai in
    let oai = put_some "temperature" (some_number req.temperature) oai in
    let oai = put_some "top_p" (some_number req.top_p) oai in
    let oai = put_some "stop" (some_array (map text req.stop_words)) oai in
    let oai =
      put "messages" (array (items (map (object_of build_open_ai_message) req.messages))) oai in
    let oai = put_some "tools" (some_array (map (object_of build_open_ai_tool) req.tools)) oai in
    put_some "tool_choice" (build_open_ai_tool_choice req.tool_choice) oai

unfoldable pub internal_to_open_ai_chat : InternalRequest → Result Body
unfolding open_ai_request
internal_to_open_ai_chat req = ok (json (object (open_ai_request req)))

-- The instructions so far with those of one more message.
abbrev add_text : String → List InternalContentPart → String
add_text instructions [] = instructions
add_text instructions (part ∷ parts) =
    if part.type == "text"
    then append (if instructions == "" then "" else append instructions "\n\n") part.content
    else instructions

abbrev pub is_instruction : InternalMessage → Bool
is_instruction im = im.role == "system" || im.role == "developer"

-- The loop over the messages, which collects the instructions and the input.
unfoldable pub split_input : String → List InternalMessage → String × List Json
unfolding append build_open_ai_message
split_input instructions [] = (instructions, [])
split_input instructions (im ∷ rest) =
    let (all, input) =
      split_input (if is_instruction im then add_text instructions im.content else instructions)
        rest in
    (all, if is_instruction im then input else object (build_open_ai_message im) ∷ input)

abbrev text_unless_empty : String → Option Json
text_unless_empty s = if s == "" then none else some (text s)

abbrev choice_type : Option InternalToolChoice → Option Json
choice_type none = none
choice_type (some choice) = some (text choice.type)

unfoldable pub responses_request : InternalRequest → Fields
unfolding put put_some split_input some_array nil_or_array
responses_request req =
    let (instructions, input) = split_input "" req.messages in
    let resp = field "model" (text req.model) end in
    let resp = put_some "stream" (if req.stream then some (boolean true) else none) resp in
    let resp = put_some "temperature" (some_number req.temperature) resp in
    let resp = put_some "top_p" (some_number req.top_p) resp in
    let resp = put_some "max_output_tokens" (some_int req.max_tokens) resp in
    let resp = put_some "instructions" (text_unless_empty instructions) resp in
    let resp = put "input" (nil_or_array input) resp in
    let resp = put_some "tools" (some_array (map (object_of build_open_ai_tool) req.tools)) resp in
    put_some "tool_choice" (choice_type req.tool_choice) resp

unfoldable pub internal_to_responses : InternalRequest → Result Body
unfolding responses_request
internal_to_responses req = ok (json (object (responses_request req)))
