-- ===== src/Provider/OpenAi/Responses.antt =====
-- internal/relay/provider/openai/response_convert.go: answers of the Chat Completions API, read into
-- the internal form and written from it.
use cli_relay.Prelude.{Option, none, some, List, [], ◌∷◌, map}
use cli_relay.Prelude.Int.{pos, ◌+ℤ◌, int64}
use cli_relay.Prelude.Results.{Result, ok, ◌>>=◌}
use cli_relay.Json.{Json, null, number, text, array, object, Fields, end, field, of_int}
use cli_relay.Relay.Http.{Body, json}
use cli_relay.Provider.Internal.{
  InternalMessage, InternalContentPart, InternalToolCall, InternalResponse, InternalChoice,
  InternalUsage,
}
use cli_relay.Provider.Values.{
  as_text, as_int, as_object, as_object?, as_list, objects, read, decode_map, elements, put,
  put_some, items,
}
use cli_relay.Provider.OpenAi.Parse.{parse_part, text_content, parse_tool_call}
use cli_relay.Provider.OpenAi.Build.{build_tool_calls, some_array, object_of, open_ai_content}

-- The answer's own copy of the function that reads a content.
unfoldable pub parse_response_content : Json → List InternalContentPart
parse_response_content (text s) = text_content s
parse_response_content (array vs) = map parse_part (objects (elements vs))
parse_response_content _ = []

abbrev pub no_message : InternalMessage
no_message = record { role = ""; content = []; tool_calls = []; tool_result = none }

abbrev pub parse_response_message : Option Fields → InternalMessage
parse_response_message none = no_message
parse_response_message (some msg) = record {
  role = as_text (read "role" msg);
  content = parse_response_content (read "content" msg);
  tool_calls = map parse_tool_call (objects (as_list (read "tool_calls" msg)));
  tool_result = none;
}

unfoldable pub parse_open_ai_choice : Fields → InternalChoice
unfolding parse_response_content
parse_open_ai_choice ch = record {
  index = as_int (read "index" ch);
  message = parse_response_message (as_object? (read "message" ch));
  finish_reason = as_text (read "finish_reason" ch);
}

abbrev pub parse_open_ai_usage : Fields → InternalUsage
parse_open_ai_usage usage = record {
  prompt_tokens = as_int (read "prompt_tokens" usage);
  completion_tokens = as_int (read "completion_tokens" usage);
}

unfoldable pub open_ai_response_of : Fields → InternalResponse
open_ai_response_of resp = record {
  id = as_text (read "id" resp);
  model = as_text (read "model" resp);
  choices = map parse_open_ai_choice (objects (as_list (read "choices" resp)));
  usage = parse_open_ai_usage (as_object (read "usage" resp));
}

unfoldable pub open_ai_response_to_internal : Body → Result InternalResponse
unfolding open_ai_response_of
open_ai_response_to_internal body =
    decode_map "parse openai response" body >>= λ resp. ok (open_ai_response_of resp)

-- Nothing is written for a message without content and calls, and null where it has only calls.
abbrev pub response_content : List InternalToolCall → List InternalContentPart → Option Json
response_content [] [] = none
response_content (call ∷ calls) [] = some null
response_content calls (part ∷ parts) = some (open_ai_content part parts)

unfoldable pub build_response_message : InternalMessage → Fields
unfolding put_some some_array build_tool_calls
build_response_message im =
    let msg = field "role" (text im.role) end in
    let msg = put_some "content" (response_content im.tool_calls im.content) msg in
    put_some "tool_calls" (some_array (build_tool_calls 0 im.tool_calls)) msg

unfoldable pub build_open_ai_choice : InternalChoice → Fields
unfolding build_response_message
build_open_ai_choice ch = field "index" (number (of_int ch.index)) (
    field "message" (object (build_response_message ch.message))
      (field "finish_reason" (text ch.finish_reason) end))

unfoldable pub build_open_ai_usage : InternalUsage → Fields
build_open_ai_usage usage = field "prompt_tokens" (number (of_int usage.prompt_tokens)) (
    field "completion_tokens" (number (of_int usage.completion_tokens)) (
      field "total_tokens"
        (number (of_int (int64 (usage.prompt_tokens +ℤ usage.completion_tokens)))) end))

unfoldable pub open_ai_response : InternalResponse → Fields
unfolding put build_open_ai_choice build_open_ai_usage items
open_ai_response resp =
    let oai = field "object" (text "chat.completion") (field "created" (number (pos 0)) end) in
    let oai = put "id" (text resp.id) oai in
    let oai = put "model" (text resp.model) oai in
    let oai =
      put "choices" (array (items (map (object_of build_open_ai_choice) resp.choices))) oai in
    put "usage" (object (build_open_ai_usage resp.usage)) oai

unfoldable pub internal_to_open_ai_response : InternalResponse → Result Body
unfolding open_ai_response
internal_to_open_ai_response resp = ok (json (object (open_ai_response resp)))
