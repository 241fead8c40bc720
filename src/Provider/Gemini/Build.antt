-- ===== src/Provider/Gemini/Build.antt =====
-- internal/relay/provider/gemini/from_internal.go: the internal form, written as a request of
-- `generateContent`.
use cli_relay.Prelude.{
  String, Option, none, some, List, [], ◌∷◌, ◌++◌, map, if◌then◌else◌, ◌==◌, ◌&&◌, ◌||◌, not,
}
use cli_relay.Prelude.Int.{ℤ, pos, ltb_ℤ}
use cli_relay.Prelude.Results.{Result, ok}
use cli_relay.Json.{Json, null, number, text, array, object, Fields, end, field, of_int}
use cli_relay.Relay.Http.{Body, json}
use cli_relay.Provider.Internal.{
  InternalRequest, InternalMessage, InternalContentPart, InternalToolCall, InternalToolResult,
  InternalTool, InternalToolChoice,
}
use cli_relay.Provider.Values.{put, put_some, items, nil_or_array}
use cli_relay.Provider.Codec.{Codec, map_or_empty}
use cli_relay.Provider.OpenAi.Build.{some_number, some_array, object_of}
use cli_relay.Provider.Anthropic.Build.{unless_nil, some_choice}

abbrev pub only : String → Json → Json
only key v = object (field key v end)

abbrev pub text_only : String → Json
text_only s = only "text" (text s)

abbrev image_part : Option String → List Json → List Json
image_part none rest = rest
image_part (some url) rest = only "image_url" (only "url" (text url)) ∷ rest

abbrev gemini_part : InternalContentPart → List Json → List Json
gemini_part part rest =
    if part.type == "image_url"
    then image_part part.image_url rest
    else text_only part.content ∷ rest

unfoldable pub gemini_parts : List InternalContentPart → List Json
gemini_parts [] = []
gemini_parts (part ∷ parts) = gemini_part part (gemini_parts parts)

-- There is always a part, an empty text if need be.
abbrev pub or_empty_text : List Json → List Json
or_empty_text [] = text_only "" ∷ []
or_empty_text (v ∷ vs) = v ∷ vs

unfoldable pub content_to_gemini_parts : List InternalContentPart → List Json
unfolding gemini_parts
content_to_gemini_parts parts = or_empty_text (gemini_parts parts)

abbrev pub message_of : String → List Json → Json
message_of role parts = object (field "role" (text role) (field "parts" (array (items parts)) end))

unfoldable pub build_gemini_user_message : InternalMessage → Json
unfolding content_to_gemini_parts items
build_gemini_user_message im = message_of "user" (content_to_gemini_parts im.content)

abbrev spoken_part : InternalContentPart → List Json → List Json
spoken_part part rest =
    if part.type == "text" && not (part.content == "") then text_only part.content ∷ rest else rest

unfoldable pub spoken_parts : List InternalContentPart → List Json
spoken_parts [] = []
spoken_parts (part ∷ parts) = spoken_part part (spoken_parts parts)

abbrev pub function_call_part : String → Json → Json
function_call_part name args =
    only "functionCall" (object (field "name" (text name) (field "args" args end)))

unfoldable pub build_gemini_tool_result : Option InternalToolResult → Json
unfolding items nil_or_array
build_gemini_tool_result none = message_of "user" (
    only "functionResponse" (
      object (
        field "id" (text "") (field "name" (text "") (field "response" (only "content" null) end))))
    ∷ [])
build_gemini_tool_result (some result) = message_of "user" (
    only "functionResponse" (
      object (
        field "id" (text result.tool_call_id) (
          field "name" (text result.name) (
            field "response"
              (only "content"
                (nil_or_array (if result.content == "" then [] else text_only result.content ∷ [])))
              end))))
    ∷ [])

module _ (codec : Codec) where
  -- The error of `json.Unmarshal` is dropped.
  unfoldable pub gemini_arguments : String → Json
  gemini_arguments arguments =
      if arguments == "" || arguments == "{}"
      then object end
      else map_or_empty (codec.unmarshal arguments)

  unfoldable pub function_call_parts : List InternalToolCall → List Json
  unfolding gemini_arguments
  function_call_parts [] = []
  function_call_parts (itc ∷ rest) =
      function_call_part itc.name (gemini_arguments itc.arguments) ∷ function_call_parts rest

  abbrev assistant_parts : List InternalContentPart → List InternalToolCall → List Json
  assistant_parts parts [] = content_to_gemini_parts parts
  assistant_parts parts (call ∷ calls) = spoken_parts parts ++ function_call_parts (call ∷ calls)

  unfoldable pub build_gemini_assistant_message : InternalMessage → Json
  unfolding content_to_gemini_parts spoken_parts function_call_parts items
  build_gemini_assistant_message im = message_of "model" (assistant_parts im.content im.tool_calls)

  unfoldable pub build_gemini_message : InternalMessage → Json
  unfolding build_gemini_tool_result build_gemini_assistant_message build_gemini_user_message
  build_gemini_message im =
      if im.role == "tool"
      then build_gemini_tool_result im.tool_result
      else if im.role == "assistant"
      then build_gemini_assistant_message im
      else build_gemini_user_message im

  unfoldable pub gemini_contents : List InternalMessage → List Json
  unfolding build_gemini_message
  gemini_contents [] = []
  gemini_contents (im ∷ rest) =
      let others = gemini_contents rest in
      if im.role == "system" then others else build_gemini_message im ∷ others

-- Each system message writes over the one before it.
unfoldable pub system_instruction : Option Json → List InternalMessage → Option Json
unfolding content_to_gemini_parts items
system_instruction found [] = found
system_instruction found (im ∷ rest) =
    system_instruction
      (if im.role == "system"
        then some (only "parts" (array (items (content_to_gemini_parts im.content))))
        else found)
      rest

unfoldable pub build_declaration : InternalTool → Fields
unfolding put_some
build_declaration it =
    put_some "parameters" (unless_nil it.parameters)
      (field "name" (text it.name) (field "description" (text it.description) end))

abbrev pub declarations_of : List InternalTool → Option Json
declarations_of [] = none
declarations_of (it ∷ its) = some (
    array (
      items (
        only "functionDeclarations" (array (items (map (object_of build_declaration) (it ∷ its))))
        ∷ [])))

abbrev pub mode_config : String → Fields → Json
mode_config mode rest = only "functionCallingConfig" (object (field "mode" (text mode) rest))

unfoldable pub build_gemini_tool_config : InternalToolChoice → Json
unfolding items
build_gemini_tool_config tc =
    if tc.type == "none"
    then mode_config "NONE" end
    else if tc.type == "required"
    then mode_config "ANY" end
    else if tc.type == "function"
    then mode_config "ANY"
        (field "allowedFunctionNames" (array (items (text tc.function ∷ []))) end)
    else mode_config "AUTO" end

unfoldable pub positive_int : Option ℤ → Option Json
positive_int none = none
positive_int (some n) = if ltb_ℤ (pos 0) n then some (number (of_int n)) else none

unfoldable pub generation_config : InternalRequest → Fields
unfolding put_some positive_int some_array
generation_config req =
    let config = put_some "maxOutputTokens" (positive_int req.max_tokens) end in
    let config = put_some "temperature" (some_number req.temperature) config in
    let config = put_some "topP" (some_number req.top_p) config in
    put_some "stopSequences" (some_array (map text req.stop_words)) config

abbrev pub unless_empty : Fields → Option Json
unless_empty end = none
unless_empty (field k v fs) = some (object (field k v fs))

unfoldable pub gemini_request : Codec → InternalRequest → Fields
unfolding put put_some system_instruction gemini_contents nil_or_array generation_config
    build_declaration build_gemini_tool_config items
gemini_request codec req =
    let out = put_some "systemInstruction" (system_instruction none req.messages) end in
    let out = put "contents" (nil_or_array (gemini_contents codec req.messages)) out in
    let out = put_some "generationConfig" (unless_empty (generation_config req)) out in
    let out = put_some "tools" (declarations_of req.tools) out in
    put_some "toolConfig" (some_choice build_gemini_tool_config req.tool_choice) out

unfoldable pub internal_to_gemini : Codec → InternalRequest → Result Body
unfolding gemini_request
internal_to_gemini codec req = ok (json (object (gemini_request codec req)))
