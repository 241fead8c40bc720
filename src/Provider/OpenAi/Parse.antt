-- ===== src/Provider/OpenAi/Parse.antt =====
-- internal/relay/provider/openai/to_internal.go: a request of the Chat Completions API, read into
-- the internal form.
use cli_relay.Prelude.{String, Option, none, some, List, [], ◌∷◌, map, if◌then◌else◌, ◌==◌, false}
use cli_relay.Prelude.Results.{Result, ok, ◌>>=◌}
use cli_relay.Json.{Json, text, array, object, Fields}
use cli_relay.Relay.Http.{Body}
use cli_relay.Provider.Internal.{
  InternalRequest, InternalMessage, InternalContentPart, InternalToolCall, InternalToolResult,
  InternalTool, InternalToolChoice,
}
use cli_relay.Provider.Values.{
  as_text, as_number?, as_positive_int?, as_bool, as_object, as_object?, as_list, objects, texts,
  read, member, decode_map, elements,
}

abbrev pub text_part : String → InternalContentPart
text_part s = record { type = "text"; content = s; image_url = none }

abbrev url_of : Option Fields → Option String
url_of none = none
url_of (some image) = some (as_text (read "url" image))

abbrev pub parse_part : Fields → InternalContentPart
parse_part m = record {
  type = as_text (read "type" m);
  content = as_text (read "text" m);
  image_url = url_of (as_object? (read "image_url" m));
}

abbrev pub text_content : String → List InternalContentPart
text_content s = if s == "" then [] else text_part s ∷ []

unfoldable pub parse_open_ai_content : Json → List InternalContentPart
parse_open_ai_content (text s) = text_content s
parse_open_ai_content (array vs) = map parse_part (objects (elements vs))
parse_open_ai_content _ = []

abbrev named_call : String → Fields → InternalToolCall
named_call id fn = record {
  id = id;
  name = as_text (read "name" fn);
  arguments = as_text (read "arguments" fn);
}

abbrev pub parse_tool_call : Fields → InternalToolCall
parse_tool_call tc = named_call (as_text (read "id" tc)) (as_object (read "function" tc))

abbrev pub tool_result_of : Fields → InternalToolResult
tool_result_of msg = record {
  tool_call_id = as_text (read "tool_call_id" msg);
  name = "";
  content = as_text (read "content" msg);
  is_error = false;
}

unfoldable pub parse_open_ai_message : Fields → InternalMessage
parse_open_ai_message msg =
    let role = as_text (read "role" msg) in
    record {
      role = role;
      content = parse_open_ai_content (read "content" msg);
      tool_calls = map parse_tool_call (objects (as_list (read "tool_calls" msg)));
      tool_result = if role == "tool" then some (tool_result_of msg) else none;
    }

abbrev named_tool : Fields → InternalTool
named_tool fn = record {
  type = "function";
  name = as_text (read "name" fn);
  description = as_text (read "description" fn);
  parameters = read "parameters" fn;
}

abbrev pub parse_open_ai_tool : Fields → InternalTool
parse_open_ai_tool tool = named_tool (as_object (read "function" tool))

unfoldable pub parse_open_ai_tool_choice : Json → InternalToolChoice
parse_open_ai_tool_choice (text type) = record { type = type; function = "" }
parse_open_ai_tool_choice (object v) = record {
  type = as_text (read "type" v);
  function = as_text (read "name" (as_object (read "function" v)));
}
parse_open_ai_tool_choice _ = record { type = "auto"; function = "" }

abbrev pub parse_choice_with : (Json → InternalToolChoice) → Option Json → Option InternalToolChoice
parse_choice_with parse none = none
parse_choice_with parse (some tc) = some (parse tc)

-- One stop word, or a list of them.
abbrev pub parse_stop : Json → List String
parse_stop (text s) = if s == "" then [] else s ∷ []
parse_stop (array vs) = texts (elements vs)
parse_stop _ = []

unfoldable pub open_ai_request_of : Fields → InternalRequest
open_ai_request_of req = record {
  model = as_text (read "model" req);
  messages = map parse_open_ai_message (objects (as_list (read "messages" req)));
  tools = map parse_open_ai_tool (objects (as_list (read "tools" req)));
  tool_choice = parse_choice_with parse_open_ai_tool_choice (member "tool_choice" req);
  stream = as_bool (read "stream" req);
  max_tokens = as_positive_int? (read "max_tokens" req);
  temperature = as_number? (read "temperature" req);
  top_p = as_number? (read "top_p" req);
  stop_words = parse_stop (read "stop" req);
}

unfoldable pub open_ai_chat_to_internal : Body → Result InternalRequest
unfolding open_ai_request_of
open_ai_chat_to_internal body =
    decode_map "parse openai chat request" body >>= λ req. ok (open_ai_request_of req)
