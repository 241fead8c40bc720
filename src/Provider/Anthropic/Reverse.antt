-- ===== src/Provider/Anthropic/Reverse.antt =====
-- internal/relay/provider/anthropic/streaming.go: chunks of the Chat Completions API, converted back
-- to events of the Messages API.
use cli_relay.Prelude.{
  ℕ, zero, suc, String, Bool, true, false, Option, none, some, List, [], ◌∷◌, ◌++◌, if◌then◌else◌,
  ◌==◌,
}
use cli_relay.Prelude.Int.{ℤ, pos}
use cli_relay.Prelude.Text.{append}
use cli_relay.Prelude.Results.{Result, ok, err, ◌>>=◌}
use cli_relay.Json.{Json, number, text, array, object, nil, Fields, end, field, of_int}
use cli_relay.Provider.Codec.{Codec, RandomHex, decoded_map}
use cli_relay.Provider.Values.{as_text, as_object?, as_list, objects, read, decode_text}
use cli_relay.Provider.Chunks.{Chunk, ChunkChoice, decode_chunk, data_of}

-- `anthropicReverseState`; `drawn` counts the random names.
pub record AnthropicReverseState : Type 0 where
  pub started : Bool
  pub model : String
  pub msg_id : String
  pub block_idx : ℕ
  pub drawn : ℕ

-- An event: the line `event: ` and the JSON of the line `data: `.
abbrev pub Event : Type 0
Event = String × Fields

-- The function `mapFinishReasonFromOpenAI`.
unfoldable pub map_finish_reason_from_open_ai : String → String
map_finish_reason_from_open_ai reason =
    if reason == "tool_calls"
    then "tool_use"
    else if reason == "length"
    then "max_tokens"
    else "end_turn"

abbrev index_field : ℕ → Fields → Fields
index_field idx rest = field "index" (number (of_int (pos idx))) rest

abbrev of_type : String → Fields → Fields
of_type type rest = field "type" (text type) rest

unfoldable pub build_message_start : AnthropicReverseState → Event
build_message_start s = (
  "message_start",
  of_type "message_start" (
      field "message"
        (object (
          field "id" (text s.msg_id) (
            of_type "message" (
              field "role" (text "assistant") (
                field "content" (array nil) (
                  field "model" (text s.model) (
                    field "usage"
                      (object (
                        field "input_tokens" (number (pos 0))
                          (field "output_tokens" (number (pos 0)) end)))
                      end)))))))
        end),
)

abbrev build_content_block_start : String → ℕ → Event
build_content_block_start block_type idx = (
  "content_block_start",
  of_type "content_block_start" (
      index_field idx
        (field "content_block" (object (of_type block_type (field "text" (text "") end))) end)),
)

abbrev build_tool_use_block_start : ℕ → String → String → Event
build_tool_use_block_start idx id name = (
  "content_block_start",
  of_type "content_block_start" (
      index_field idx (
        field "content_block"
          (object (
            of_type "tool_use"
              (field "id" (text id) (field "name" (text name) (field "input" (object end) end)))))
          end)),
)

abbrev block_delta : ℕ → String → String → String → Event
block_delta idx delta_type key value = (
  "content_block_delta",
  of_type "content_block_delta" (
      index_field idx
        (field "delta" (object (of_type delta_type (field key (text value) end))) end)),
)

abbrev build_text_delta : ℕ → String → Event
build_text_delta idx words = block_delta idx "text_delta" "text" words

abbrev build_input_json_delta : ℕ → String → Event
build_input_json_delta idx partial_json =
    block_delta idx "input_json_delta" "partial_json" partial_json

abbrev build_content_block_stop : ℕ → Event
build_content_block_stop idx =
    ("content_block_stop", of_type "content_block_stop" (index_field idx end))

abbrev completion_of : Option (ℤ × ℤ) → ℤ
completion_of none = pos 0
completion_of (some (prompt, completion)) = completion

-- Two events; the second is written as `{}`.
unfoldable pub build_message_delta : String → Option (ℤ × ℤ) → List Event
unfolding map_finish_reason_from_open_ai
build_message_delta finish_reason usage =
    (
      "message_delta",
      of_type "message_delta" (
          field "delta"
            (object (field "stop_reason" (text (map_finish_reason_from_open_ai finish_reason)) end))
            (field "usage"
              (object (field "output_tokens" (number (of_int (completion_of usage))) end)) end)),
    )
    ∷ ("message_stop", end)
    ∷ []

abbrev pub State : Type 0
State = AnthropicReverseState × List Event

abbrev pub emit : Event → State → State
emit event (s, events) = (s, events ++ event ∷ [])

-- A first tool call ends the text block.
abbrev pub close_at : ℕ → State → State
close_at zero (s, events) = (record s { block_idx = 1 }, events ++ build_content_block_stop 0 ∷ [])
close_at (suc n) state = state

abbrev pub close_text : State → State
close_text state = close_at state.0.block_idx state

module _ (random_hex : RandomHex) where
  abbrev pub start_tool : String → String → State → State
  start_tool id name (s, events) =
      if id == ""
      then (
        record s { drawn = suc s.drawn },
        events
            ++ build_tool_use_block_start s.block_idx (append "toolu_" (random_hex s.drawn 24)) name
              ∷ [],
      )
      else (s, events ++ build_tool_use_block_start s.block_idx id name ∷ [])

  abbrev pub name_tool : String → String → State → State
  name_tool id name state = if name == "" then state else start_tool id name (close_text state)

  abbrev pub add_input : String → State → State
  add_input args (s, events) =
      if args == "" then (s, events) else emit (build_input_json_delta s.block_idx args) (s, events)

  abbrev pub convert_call : Fields → Option Fields → State → State
  convert_call tc none state = state
  convert_call tc (some fn) state =
      add_input (as_text (read "arguments" fn))
        (name_tool (as_text (read "id" tc)) (as_text (read "name" fn)) state)

  -- The loop over the calls of a delta.
  unfoldable pub convert_calls : List Fields → State → State
  unfolding append
  convert_calls [] state = state
  convert_calls (tc ∷ tcs) state =
      convert_calls tcs (convert_call tc (as_object? (read "function" tc)) state)

  abbrev pub finish_message : Option String → Option (ℤ × ℤ) → State → State
  finish_message none usage state = state
  finish_message (some reason) usage (s, events) =
      (s, events ++ build_content_block_stop s.block_idx ∷ build_message_delta reason usage)

  -- The first chunk with a choice starts the message and a text block.
  abbrev pub start_message : AnthropicReverseState → State
  start_message s = if s.started then (s, []) else (
    record s { started = true; block_idx = 0 },
    build_message_start s ∷ build_content_block_start "text" 0 ∷ [],
  )

  abbrev pub say : String → State → State
  say words (s, events) =
      if words == "" then (s, events) else emit (build_text_delta s.block_idx words) (s, events)

  abbrev pub convert_delta : Fields → List Json → State → State
  convert_delta delta [] state = say (as_text (read "content" delta)) state
  convert_delta delta (tc ∷ tcs) state = convert_calls (objects (tc ∷ tcs)) state

  abbrev pub convert_choices : Option (ℤ × ℤ) → List ChunkChoice → AnthropicReverseState → State
  convert_choices usage [] s = (s, [])
  convert_choices usage (choice ∷ choices) s =
      finish_message choice.finish_reason usage
        (convert_delta choice.delta (as_list (read "tool_calls" choice.delta)) (start_message s))

  abbrev unless_empty : String → String → String
  unless_empty new kept = if new == "" then kept else new

  -- The id and the model of a chunk are kept.
  abbrev pub take_names : String → String → AnthropicReverseState → AnthropicReverseState
  take_names id model s = record s {
    model = unless_empty model s.model;
    msg_id = unless_empty id s.msg_id;
  }

  abbrev pub convert_decoded : String → Chunk → AnthropicReverseState → State
  convert_decoded id chunk s =
      convert_choices chunk.usage chunk.choices (take_names id chunk.model s)

  abbrev pub convert_result : Result (String × Chunk) → AnthropicReverseState → State
  convert_result (err e) s = (s, [])
  convert_result (ok (id, chunk)) s = convert_decoded id chunk s

  -- A chunk; one that does not decode is skipped.
  unfoldable pub reverse_chunk : Fields → AnthropicReverseState → State
  unfolding build_message_start convert_calls build_message_delta
  reverse_chunk fs s =
      convert_result
        (decode_text "chunk" (read "id" fs) >>= λ id. decode_chunk fs >>= λ chunk. ok (id, chunk)) s

  -- What `json.Marshal` gives, and the literal of the last event.
  abbrev payload_text : Codec → Fields → String
  payload_text codec end = "{}"
  payload_text codec (field k v fs) = codec.marshal (object (field k v fs))

  abbrev print_events : Codec → List Event → String
  print_events codec [] = ""
  print_events codec ((name, payload) ∷ events) = append "event: " (
      append name (
        append "\ndata: "
          (append (payload_text codec payload) (append "\n\n" (print_events codec events)))))

  abbrev printed : Codec → State → AnthropicReverseState × Option String
  printed codec (s, []) = (s, none)
  printed codec (s, event ∷ events) = (s, some (print_events codec (event ∷ events)))

  abbrev reverse_map :
      Codec → Option Fields → AnthropicReverseState → AnthropicReverseState × Option String
  reverse_map codec none s = (s, none)
  reverse_map codec (some fs) s = printed codec (reverse_chunk fs s)

  abbrev reverse_data :
      Codec → Option String → AnthropicReverseState → AnthropicReverseState × Option String
  reverse_data codec none s = (s, none)
  reverse_data codec (some written) s =
      if written == "[DONE]"
      then (s, some "data: [DONE]\n\n")
      else reverse_map codec (decoded_map (codec.unmarshal written)) s

  unfoldable pub convert_reverse_line :
      Codec → AnthropicReverseState → String → AnthropicReverseState × Option String
  unfolding reverse_chunk data_of append
  convert_reverse_line codec s line = reverse_data codec (data_of line) s

  unfoldable pub new_anthropic_reverse_state : AnthropicReverseState
  unfolding append
  new_anthropic_reverse_state = record {
    started = false;
    model = "";
    msg_id = append "msg_" (random_hex 0 24);
    block_idx = 0;
    drawn = 1;
  }
