-- ===== src/Provider/Anthropic/Responses.antt =====
-- internal/relay/provider/anthropic/response_convert.go: answers of the Messages API, read into the
-- internal form and written from it. The keys of a struct stand in an answer as its tags spell them.
use cli_relay.Prelude.{String, Option, none, some, List, [], ◌∷◌, ◌++◌, if◌then◌else◌, ◌==◌}
use cli_relay.Prelude.Int.{pos}
use cli_relay.Prelude.Results.{Result, ok, err, ◌>>=◌}
use cli_relay.Json.{
  Json, null, number, text, array, object, Items, nil, cons, Fields, end, field, of_int,
}
use cli_relay.Relay.Http.{Body, json}
use cli_relay.Provider.Internal.{
  InternalMessage, InternalContentPart, InternalToolCall, InternalResponse, InternalChoice,
}
use cli_relay.Provider.Values.{
  as_text, read, member, decode_map, decode_text, decode_counts, put_some, nil_or_array,
}
use cli_relay.Provider.Codec.{Codec}
use cli_relay.Provider.OpenAi.Parse.{text_part}
use cli_relay.Provider.Anthropic.Parse.{bare_message, add_content, add_call}

unfoldable pub map_finish_reason_to_internal : String → String
map_finish_reason_to_internal reason =
    if reason == "tool_use"
    then "tool_calls"
    else if reason == "max_tokens"
    then "length"
    else "stop"

unfoldable pub map_finish_reason_from_internal : String → String
map_finish_reason_from_internal reason =
    if reason == "tool_calls"
    then "tool_use"
    else if reason == "length"
    then "max_tokens"
    else "end_turn"

-- `json.Unmarshal` into `[]map[string]interface{}`, which fails where an element is no map.
abbrev cons_block : Json → Option (List Fields) → Option (List Fields)
cons_block (object fs) (some blocks) = some (fs ∷ blocks)
cons_block null (some blocks) = some (end ∷ blocks)
cons_block _ _ = none

unfoldable pub block_items : Items → Option (List Fields)
block_items nil = some []
block_items (cons v vs) = cons_block v (block_items vs)

abbrev or_no_blocks : Option (List Fields) → List Fields
or_no_blocks none = []
or_no_blocks (some blocks) = blocks

-- A missing content and a text are no list of blocks, and leave the message empty.
unfoldable pub content_blocks_of : Option Json → List Fields
unfolding block_items
content_blocks_of (some (array vs)) = or_no_blocks (block_items vs)
content_blocks_of _ = []

abbrev pub empty_message : InternalMessage
empty_message = bare_message "" []

module _ (codec : Codec) where
  abbrev input_text : Option Json → String
  input_text none = "{}"
  input_text (some v) = codec.marshal v

  abbrev pub response_tool_use : Fields → InternalToolCall
  response_tool_use block = record {
    id = as_text (read "id" block);
    name = as_text (read "name" block);
    arguments = input_text (member "input" block);
  }

  unfoldable pub add_response_block : Fields → InternalMessage → InternalMessage
  add_response_block block im =
      let type = as_text (read "type" block) in
      if type == "text"
      then add_content (text_part (as_text (read "text" block))) im
      else if type == "tool_use"
      then add_call (response_tool_use block) im
      else im

  unfoldable pub add_response_blocks : List Fields → InternalMessage → InternalMessage
  add_response_blocks [] im = im
  add_response_blocks (block ∷ blocks) im = add_response_blocks blocks (add_response_block block im)

  unfoldable pub anthropic_response_of : Fields → Result InternalResponse
  unfolding content_blocks_of add_response_blocks map_finish_reason_to_internal
  anthropic_response_of resp =
      let context : String = "parse anthropic response" in
      decode_text context (read "id" resp) >>= λ id.
      decode_text context (read "model" resp) >>= λ model.
      decode_text context (read "role" resp) >>= λ role.
      decode_text context (read "stop_reason" resp) >>= λ stop_reason.
      decode_counts context "usage" "input_tokens" "output_tokens" resp >>= λ (input, output).
      ok (record {
        id = id;
        model = model;
        choices =
            record {
              index = pos 0;
              message =
                  add_response_blocks (content_blocks_of (member "content" resp)) empty_message;
              finish_reason = map_finish_reason_to_internal stop_reason;
            }
            ∷ [];
        usage = record { prompt_tokens = input; completion_tokens = output };
      })

  unfoldable pub anthropic_response_to_internal : Body → Result InternalResponse
  unfolding anthropic_response_of
  anthropic_response_to_internal body =
      decode_map "parse anthropic response" body >>= λ resp. anthropic_response_of resp

-- The tag `omitempty` of a text.
abbrev pub omit_empty : String → Option Json
omit_empty s = if s == "" then none else some (text s)

unfoldable pub answer_text_block : String → Fields
unfolding put_some
answer_text_block s = put_some "text" (omit_empty s) (field "type" (text "text") end)

abbrev answer_block : InternalContentPart → List Json → List Json
answer_block part rest =
    if part.type == "text" then object (answer_text_block part.content) ∷ rest else rest

unfoldable pub answer_blocks : List InternalContentPart → List Json
unfolding answer_text_block
answer_blocks [] = []
answer_blocks (part ∷ parts) = answer_block part (answer_blocks parts)

-- Arguments that are empty are omitted, and others have to be JSON.
abbrev input_of : Codec → String → Result (Option Json)
input_of codec arguments = if arguments == "" then ok none else elim (codec.unmarshal arguments) [
  | none ↦ err "marshal anthropic response"
  | some v ↦ ok (some v)
]

unfoldable pub answer_tool_use : InternalToolCall → Option Json → Fields
unfolding put_some
answer_tool_use tc input =
    let block = put_some "id" (omit_empty tc.id) (field "type" (text "tool_use") end) in
    let block = put_some "name" (omit_empty tc.name) block in put_some "input" input block

module _ (codec : Codec) where
  unfoldable pub answer_tool_uses : List InternalToolCall → Result (List Json)
  unfolding answer_tool_use
  answer_tool_uses [] = ok []
  answer_tool_uses (tc ∷ rest) =
      let others = answer_tool_uses rest in
      input_of codec tc.arguments >>= λ input.
      others >>= λ blocks. ok (object (answer_tool_use tc input) ∷ blocks)

unfoldable pub anthropic_answer : InternalResponse → InternalChoice → List Json → Fields
unfolding map_finish_reason_from_internal nil_or_array
anthropic_answer resp choice blocks = field "id" (text resp.id) (
    field "type" (text "message") (
      field "role" (text "assistant") (
        field "content" (nil_or_array blocks) (
          field "stop_reason" (text (map_finish_reason_from_internal choice.finish_reason)) (
            field "stop_sequence" null (
              field "usage"
                (object (
                  field "input_tokens" (number (of_int resp.usage.prompt_tokens))
                    (field "output_tokens" (number (of_int resp.usage.completion_tokens)) end)))
                end))))))

abbrev pub first_choice : List InternalChoice → Result InternalChoice
first_choice [] = err "no choices in internal response"
first_choice (choice ∷ choices) = ok choice

unfoldable pub internal_to_anthropic_response : Codec → InternalResponse → Result Body
unfolding anthropic_answer answer_blocks answer_tool_uses
internal_to_anthropic_response codec resp = first_choice resp.choices >>= λ choice.
    answer_tool_uses codec choice.message.tool_calls >>= λ uses.
    ok (json (object (anthropic_answer resp choice (answer_blocks choice.message.content ++ uses))))
