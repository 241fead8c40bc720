-- ===== src/Provider/Anthropic/Parse.antt =====
-- internal/relay/provider/anthropic/to_internal.go: a request of the Messages API, read into the
-- internal form.
use cli_relay.Prelude.{String, none, some, List, [], ◌∷◌, ◌++◌, map, if◌then◌else◌, ◌==◌}
use cli_relay.Prelude.Results.{Result, ok, ◌>>=◌}
use cli_relay.Json.{Json, text, array, object, Fields}
use cli_relay.Relay.Http.{Body}
use cli_relay.Provider.Internal.{
  InternalRequest, InternalMessage, InternalContentPart, InternalToolCall, InternalToolResult,
  InternalTool, InternalToolChoice,
}
use cli_relay.Provider.Values.{
  as_text, as_text?, as_number?, as_positive_int?, as_bool, as_object, as_list, objects, texts,
  read, member, decode_map, elements,
}
use cli_relay.Provider.Codec.{Codec, join_lines}
use cli_relay.Provider.OpenAi.Parse.{text_part, text_content, parse_choice_with}

-- The text blocks of `system`, which is a list of blocks or a text.
abbrev system_block : Fields → List InternalContentPart → List InternalContentPart
system_block m rest =
    if as_text (read "type" m) == "text" then text_part (as_text (read "text" m)) ∷ rest else rest

unfoldable pub system_blocks : List Fields → List InternalContentPart
system_blocks [] = []
system_blocks (m ∷ ms) = system_block m (system_blocks ms)

unfoldable pub parse_system : Json → List InternalContentPart
unfolding system_blocks
parse_system (array vs) = system_blocks (objects (elements vs))
parse_system (text s) = text_content s
parse_system _ = []

-- The texts of the parts of a tool's result.
unfoldable pub part_texts : List Fields → List String
unfolding texts
part_texts ms = texts (map (read "text") ms)

unfoldable pub result_content : Json → String
unfolding join_lines part_texts
result_content (array vs) = join_lines (part_texts (objects (elements vs)))
result_content (text s) = s
result_content _ = ""

abbrev pub parse_image : Fields → InternalContentPart
parse_image block = record {
  type = "image_url";
  content = "";
  image_url = as_text? (read "url" (as_object (read "source" block)));
}

abbrev pub parse_tool_result : Fields → InternalToolResult
parse_tool_result block = record {
  tool_call_id = as_text (read "tool_use_id" block);
  name = "";
  content = result_content (read "content" block);
  is_error = as_bool (read "is_error" block);
}

abbrev pub add_content : InternalContentPart → InternalMessage → InternalMessage
add_content part im = record im { content = im.content ++ part ∷ [] }

abbrev pub add_call : InternalToolCall → InternalMessage → InternalMessage
add_call call im = record im { tool_calls = im.tool_calls ++ call ∷ [] }

abbrev pub bare_message : String → List InternalContentPart → InternalMessage
bare_message role parts = record {
  role = role;
  content = parts;
  tool_calls = [];
  tool_result = none;
}

module _ (codec : Codec) where
  abbrev pub parse_tool_use : Fields → InternalToolCall
  parse_tool_use block = record {
    id = as_text (read "id" block);
    name = as_text (read "name" block);
    arguments = codec.marshal (read "input" block);
  }

  -- One round of the loop over the blocks of a message.
  unfoldable pub add_block : Fields → InternalMessage → InternalMessage
  add_block block im =
      let type = as_text (read "type" block) in
      if type == "text"
      then add_content (text_part (as_text (read "text" block))) im
      else if type == "tool_use"
      then add_call (parse_tool_use block) im
      else if type == "tool_result"
      then record im { tool_result = some (parse_tool_result block) }
      else if type == "image"
      then add_content (parse_image block) im
      else im

  unfoldable pub add_blocks : List Fields → InternalMessage → InternalMessage
  add_blocks [] im = im
  add_blocks (block ∷ blocks) im = add_blocks blocks (add_block block im)

  abbrev parse_content : Json → InternalMessage → InternalMessage
  parse_content (text s) im = record im { content = text_content s }
  parse_content (array vs) im = add_blocks (objects (elements vs)) im
  parse_content _ im = im

  unfoldable pub parse_anthropic_message : Fields → InternalMessage
  unfolding add_blocks add_block
  parse_anthropic_message msg =
      parse_content (read "content" msg) (bare_message (as_text (read "role" msg)) [])

abbrev pub parse_anthropic_tool : Fields → InternalTool
parse_anthropic_tool tool = record {
  type = "function";
  name = as_text (read "name" tool);
  description = as_text (read "description" tool);
  parameters = read "input_schema" tool;
}

abbrev choice_of_type : String → Fields → InternalToolChoice
choice_of_type type v =
    if type == "any"
    then record { type = "required"; function = "" }
    else if type == "tool"
    then record { type = "function"; function = as_text (read "name" v) }
    else record { type = type; function = "" }

unfoldable pub parse_anthropic_tool_choice : Json → InternalToolChoice
parse_anthropic_tool_choice (object v) = choice_of_type (as_text (read "type" v)) v
parse_anthropic_tool_choice _ = record { type = "auto"; function = "" }

-- `if len(systemContent) > 0`: the system message comes first.
abbrev pub with_system : List InternalContentPart → List InternalMessage → List InternalMessage
with_system [] messages = messages
with_system (part ∷ parts) messages = bare_message "system" (part ∷ parts) ∷ messages

module _ (codec : Codec) where
  unfoldable pub anthropic_request_of : Fields → InternalRequest
  anthropic_request_of req = record {
    model = as_text (read "model" req);
    messages =
        with_system (parse_system (read "system" req))
          (map (parse_anthropic_message codec) (objects (as_list (read "messages" req))));
    tools = map parse_anthropic_tool (objects (as_list (read "tools" req)));
    tool_choice = parse_choice_with parse_anthropic_tool_choice (member "tool_choice" req);
    stream = as_bool (read "stream" req);
    max_tokens = as_positive_int? (read "max_tokens" req);
    temperature = as_number? (read "temperature" req);
    top_p = as_number? (read "top_p" req);
    stop_words = texts (as_list (read "stop_sequences" req));
  }

  unfoldable pub anthropic_to_internal : Body → Result InternalRequest
  unfolding anthropic_request_of
  anthropic_to_internal body =
      decode_map "parse anthropic request" body >>= λ req. ok (anthropic_request_of req)
