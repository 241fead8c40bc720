-- ===== src/Provider/Anthropic/Build.antt =====
-- internal/relay/provider/anthropic/from_internal.go: the internal form, written as a request of the
-- Messages API. A nil pointer that is followed is an error here: the panic of the request.
use cli_relay.Prelude.{String, Option, none, some, List, [], ◌∷◌, ◌++◌, map, if◌then◌else◌, ◌==◌}
use cli_relay.Prelude.Int.{ℤ, pos, ltb_ℤ}
use cli_relay.Prelude.Results.{Result, ok, err, ◌>>=◌}
use cli_relay.Json.{Json, null, boolean, number, text, array, object, Fields, end, field, of_int}
use cli_relay.Relay.Http.{Body, json}
use cli_relay.Provider.Internal.{
  InternalRequest, InternalMessage, InternalContentPart, InternalToolCall, InternalToolResult,
  InternalTool, InternalToolChoice,
}
use cli_relay.Provider.Values.{put, put_some, items, nil_or_array}
use cli_relay.Provider.Codec.{Codec}
use cli_relay.Provider.OpenAi.Build.{some_number, some_array, is_plain, object_of}

abbrev pub text_block : String → Json
text_block s = object (field "type" (text "text") (field "text" (text s) end))

abbrev pub role_and_content : String → Json → Json
role_and_content role content = object (field "role" (text role) (field "content" content end))

unfoldable pub content_to_text : List InternalContentPart → String
content_to_text [] = ""
content_to_text (part ∷ parts) =
    let rest = content_to_text parts in if part.type == "text" then part.content else rest

abbrev image_block : Option String → List Json → List Json
image_block none rest = rest
image_block (some url) rest =
    object (
      field "type" (text "image")
        (field "source" (object (field "type" (text "url") (field "url" (text url) end))) end))
    ∷ rest

abbrev content_block : InternalContentPart → List Json → List Json
content_block part rest =
    if part.type == "text"
    then text_block part.content ∷ rest
    else if part.type == "image_url"
    then image_block part.image_url rest
    else object (field "type" (text part.type) (field "text" (text part.content) end)) ∷ rest

unfoldable pub content_blocks : List InternalContentPart → List Json
content_blocks [] = []
content_blocks (part ∷ parts) = content_block part (content_blocks parts)

-- `if len(blocks) == 0 { return "" }`
abbrev empty_or_array : List Json → Json
empty_or_array [] = text ""
empty_or_array (v ∷ vs) = array (items (v ∷ vs))

unfoldable pub build_anthropic_content : List InternalContentPart → Json
unfolding content_blocks items
build_anthropic_content [] = text ""
build_anthropic_content (part ∷ next ∷ parts) =
    empty_or_array (content_blocks (part ∷ next ∷ parts))
build_anthropic_content (part ∷ []) =
    if is_plain part then text part.content else empty_or_array (content_blocks (part ∷ []))

unfoldable pub build_anthropic_user_message : InternalMessage → Json
unfolding build_anthropic_content
build_anthropic_user_message im = role_and_content "user" (build_anthropic_content im.content)

abbrev pub tool_result_block : InternalToolResult → Json
tool_result_block result = object (
    field "type" (text "tool_result") (
      field "tool_use_id" (text result.tool_call_id)
        (field "content" (array (items (text_block result.content ∷ []))) end)))

-- `im.ToolResult.ToolCallID` is read without the test for nil that the content has.
unfoldable pub build_anthropic_tool_result : Option InternalToolResult → Result Json
unfolding items
build_anthropic_tool_result none = err "nil pointer dereference"
build_anthropic_tool_result (some result) =
    ok (role_and_content "user" (array (items (tool_result_block result ∷ []))))

-- `json.RawMessage(itc.Arguments)`, which `json.Marshal` refuses where it is no JSON.
abbrev raw_message : Option Json → Result Json
raw_message none = err "invalid json.RawMessage"
raw_message (some v) = ok v

abbrev pub tool_use_block : InternalToolCall → Json → Json
tool_use_block itc input = object (
    field "type" (text "tool_use")
      (field "id" (text itc.id) (field "name" (text itc.name) (field "input" input end))))

abbrev pub text_blocks_of : String → List Json
text_blocks_of s = if s == "" then [] else text_block s ∷ []

module _ (codec : Codec) where
  unfoldable pub tool_use_blocks : List InternalToolCall → Result (List Json)
  tool_use_blocks [] = ok []
  tool_use_blocks (itc ∷ rest) =
      let others = tool_use_blocks rest in
      raw_message (codec.unmarshal itc.arguments) >>= λ input.
      others >>= λ blocks. ok (tool_use_block itc input ∷ blocks)

  abbrev assistant_message : String → List InternalToolCall → Result Json
  assistant_message said [] = ok (role_and_content "assistant" (text said))
  assistant_message said (call ∷ calls) = tool_use_blocks (call ∷ calls) >>= λ blocks.
      ok (role_and_content "assistant" (array (items (text_blocks_of said ++ blocks))))

  unfoldable pub build_anthropic_assistant_message : InternalMessage → Result Json
  unfolding tool_use_blocks content_to_text items
  build_anthropic_assistant_message im =
      assistant_message (content_to_text im.content) im.tool_calls

  -- One round of the loop over the messages, for a role other than `system`.
  unfoldable pub build_anthropic_message : InternalMessage → Result Json
  unfolding build_anthropic_user_message build_anthropic_tool_result
      build_anthropic_assistant_message
  build_anthropic_message im =
      if im.role == "tool"
      then build_anthropic_tool_result im.tool_result
      else if im.role == "assistant"
      then build_anthropic_assistant_message im
      else ok (build_anthropic_user_message im)

  unfoldable pub anthropic_messages : List InternalMessage → Result (List Json)
  unfolding build_anthropic_message
  anthropic_messages [] = ok []
  anthropic_messages (im ∷ rest) =
      let others = anthropic_messages rest in
      if im.role == "system"
      then others
      else build_anthropic_message im >>= λ msg. others >>= λ msgs. ok (msg ∷ msgs)

-- The text parts of the system messages.
abbrev system_part : InternalContentPart → List Json → List Json
system_part part rest = if part.type == "text" then text_block part.content ∷ rest else rest

unfoldable pub system_texts : List InternalContentPart → List Json
system_texts [] = []
system_texts (part ∷ parts) = system_part part (system_texts parts)

unfoldable pub system_parts : List InternalMessage → List Json
unfolding system_texts
system_parts [] = []
system_parts (im ∷ rest) =
    let others = system_parts rest in
    if im.role == "system" then system_texts im.content ++ others else others

abbrev pub unless_nil : Json → Option Json
unless_nil null = none
unless_nil v = some v

unfoldable pub build_anthropic_tool : InternalTool → Fields
unfolding put_some
build_anthropic_tool it =
    put_some "input_schema" (unless_nil it.parameters)
      (field "name" (text it.name) (field "description" (text it.description) end))

abbrev of_type : String → Fields → Json
of_type type rest = object (field "type" (text type) rest)

unfoldable pub build_anthropic_tool_choice : InternalToolChoice → Json
build_anthropic_tool_choice tc =
    if tc.type == "none"
    then of_type "none" end
    else if tc.type == "required"
    then of_type "any" end
    else if tc.type == "function"
    then of_type "tool" (field "name" (text tc.function) end)
    else of_type "auto" end

abbrev pub some_choice : (InternalToolChoice → Json) → Option InternalToolChoice → Option Json
some_choice build none = none
some_choice build (some tc) = some (build tc)

-- The Messages API wants a bound: 4096 where the request has none.
unfoldable pub anthropic_max_tokens : Option ℤ → ℤ
anthropic_max_tokens none = pos 4096
anthropic_max_tokens (some n) = if ltb_ℤ (pos 0) n then n else pos 4096

unfoldable pub anthropic_fields : InternalRequest → List Json → Fields
unfolding put put_some anthropic_max_tokens some_array system_parts nil_or_array
    build_anthropic_tool build_anthropic_tool_choice
anthropic_fields req messages =
    let out = put "stream" (boolean req.stream) (field "model" (text req.model) end) in
    let out = put "max_tokens" (number (of_int (anthropic_max_tokens req.max_tokens))) out in
    let out = put_some "temperature" (some_number req.temperature) out in
    let out = put_some "top_p" (some_number req.top_p) out in
    let out = put_some "stop_sequences" (some_array (map text req.stop_words)) out in
    let out = put_some "system" (some_array (system_parts req.messages)) out in
    let out = put "messages" (nil_or_array messages) out in
    let out = put_some "tools" (some_array (map (object_of build_anthropic_tool) req.tools)) out in
    put_some "tool_choice" (some_choice build_anthropic_tool_choice req.tool_choice) out

unfoldable pub internal_to_anthropic : Codec → InternalRequest → Result Body
unfolding anthropic_fields anthropic_messages
internal_to_anthropic codec req = anthropic_messages codec req.messages >>= λ messages.
    ok (json (object (anthropic_fields req messages)))
