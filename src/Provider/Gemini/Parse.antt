-- ===== src/Provider/Gemini/Parse.antt =====
-- internal/relay/provider/gemini/to_internal.go: a request of `generateContent`, read into the
-- internal form. The names of tool calls are drawn at random: `drawn` counts the draws before.
use cli_relay.Prelude.{
  ℕ, suc, String, Option, none, some, List, [], ◌∷◌, map, if◌then◌else◌, ◌==◌, false,
}
use cli_relay.Prelude.Text.{append}
use cli_relay.Prelude.Results.{Result, ok, ◌>>=◌}
use cli_relay.Json.{Json, null, text, Fields}
use cli_relay.Relay.Http.{Body}
use cli_relay.Provider.Internal.{
  InternalRequest, InternalMessage, InternalContentPart, InternalToolCall, InternalToolResult,
  InternalTool, InternalToolChoice,
}
use cli_relay.Provider.Values.{
  as_text, as_text?, as_number?, as_positive_int?, as_object, as_object?, as_list, objects, texts,
  read, decode_map,
}
use cli_relay.Provider.Codec.{Codec, RandomHex, join_lines}
use cli_relay.Provider.OpenAi.Parse.{text_part}
use cli_relay.Provider.Anthropic.Parse.{
  bare_message, with_system, add_content, add_call, part_texts,
}

unfoldable pub internal_role : String → String
internal_role role = if role == "model" then "assistant" else role

-- The texts of the parts of `systemInstruction`.
abbrev pub system_content : Json → List InternalContentPart
system_content instruction =
    map text_part (part_texts (objects (as_list (read "parts" (as_object instruction)))))

abbrev pub parse_function_response : Fields → InternalToolResult
parse_function_response fr = record {
  tool_call_id = as_text (read "id" fr);
  name = as_text (read "name" fr);
  content =
      join_lines (part_texts (objects (as_list (read "content" (as_object (read "response" fr))))));
  is_error = false;
}

abbrev pub add_text : Option String → InternalMessage → InternalMessage
add_text none im = im
add_text (some s) im = add_content (text_part s) im

abbrev add_response : Option Fields → InternalMessage → InternalMessage
add_response none im = im
add_response (some fr) im = record im {
  role = "tool";
  tool_result = some (parse_function_response fr);
}

module _ (codec : Codec) (random_hex : RandomHex) where
  abbrev pub parse_function_call : ℕ → Fields → InternalToolCall
  parse_function_call drawn fc = record {
    id = append "call_" (random_hex drawn 12);
    name = as_text (read "name" fc);
    arguments = codec.marshal (read "args" fc);
  }

  abbrev add_function_call : Option Fields → ℕ × InternalMessage → ℕ × InternalMessage
  add_function_call none (drawn, im) = (drawn, im)
  add_function_call (some fc) (drawn, im) = (suc drawn, add_call (parse_function_call drawn fc) im)

  abbrev respond : Option Fields → ℕ × InternalMessage → ℕ × InternalMessage
  respond fr (drawn, im) = (drawn, add_response fr im)

  -- One round of the loop over the parts of a message.
  unfoldable pub add_gemini_part : Fields → ℕ × InternalMessage → ℕ × InternalMessage
  add_gemini_part part (drawn, im) = respond (as_object? (read "functionResponse" part)) (
      add_function_call (as_object? (read "functionCall" part))
        (drawn, add_text (as_text? (read "text" part)) im))

  unfoldable pub add_gemini_parts : List Fields → ℕ × InternalMessage → ℕ × InternalMessage
  add_gemini_parts [] state = state
  add_gemini_parts (part ∷ parts) state = add_gemini_parts parts (add_gemini_part part state)

  unfoldable pub parse_gemini_content : ℕ → Fields → ℕ × InternalMessage
  unfolding add_gemini_parts add_gemini_part internal_role
  parse_gemini_content drawn content =
      add_gemini_parts (objects (as_list (read "parts" content)))
        (drawn, bare_message (internal_role (as_text (read "role" content))) [])

  -- The loop over `contents`.
  unfoldable pub parse_contents : ℕ → List Fields → List InternalMessage
  unfolding parse_gemini_content
  parse_contents drawn [] = []
  parse_contents drawn (content ∷ contents) =
      let (next, im) = parse_gemini_content drawn content in im ∷ parse_contents next contents

abbrev first_object : List Json → Fields
first_object [] = as_object null
first_object (v ∷ vs) = as_object v

abbrev pub parse_declaration : Fields → InternalTool
parse_declaration fd = record {
  type = "function";
  name = as_text (read "name" fd);
  description = as_text (read "description" fd);
  parameters = read "parameters" fd;
}

-- Only the first of the tools is read.
unfoldable pub parse_gemini_tools : Json → List InternalTool
parse_gemini_tools tools =
    map parse_declaration
      (objects (as_list (read "functionDeclarations" (first_object (as_list tools)))))

abbrev pub of_type : String → InternalToolChoice
of_type type = record { type = type; function = "" }

abbrev allowed_choice : List Json → InternalToolChoice
allowed_choice (text name ∷ names) = record { type = "function"; function = name }
allowed_choice _ = of_type "required"

abbrev choice_of_mode : Fields → InternalToolChoice
choice_of_mode fcc =
    let mode = as_text (read "mode" fcc) in
    if mode == "NONE"
    then of_type "none"
    else if mode == "ANY"
    then allowed_choice (as_list (read "allowedFunctionNames" fcc))
    else of_type "auto"

abbrev choice_of_config : Option Fields → InternalToolChoice
choice_of_config none = of_type "auto"
choice_of_config (some fcc) = choice_of_mode fcc

unfoldable pub parse_gemini_tool_config : Fields → InternalToolChoice
parse_gemini_tool_config tc = choice_of_config (as_object? (read "functionCallingConfig" tc))

abbrev pub parse_config_with :
    (Fields → InternalToolChoice) → Option Fields → Option InternalToolChoice
parse_config_with parse none = none
parse_config_with parse (some tc) = some (parse tc)

module _ (codec : Codec) (random_hex : RandomHex) where
  unfoldable pub gemini_request_of : Fields → InternalRequest
  gemini_request_of req =
      let gc = as_object (read "generationConfig" req) in
      record {
        model = as_text (read "model" req);
        messages =
            with_system (system_content (read "systemInstruction" req))
              (parse_contents codec random_hex 0 (objects (as_list (read "contents" req))));
        tools = parse_gemini_tools (read "tools" req);
        tool_choice =
            parse_config_with parse_gemini_tool_config (as_object? (read "toolConfig" req));
        stream = false;
        max_tokens = as_positive_int? (read "maxOutputTokens" gc);
        temperature = as_number? (read "temperature" gc);
        top_p = as_number? (read "topP" gc);
        stop_words = texts (as_list (read "stopSequences" gc));
      }

  unfoldable pub gemini_to_internal : Body → Result InternalRequest
  unfolding gemini_request_of
  gemini_to_internal body =
      decode_map "parse gemini request" body >>= λ req. ok (gemini_request_of req)
