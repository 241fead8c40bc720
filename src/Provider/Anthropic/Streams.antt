-- ===== src/Provider/Anthropic/Streams.antt =====
-- internal/relay/provider/anthropic/streaming.go: events of the Messages API, converted to chunks of
-- the Chat Completions API.
use cli_relay.Prelude.{String, Option, none, some, List, [], ◌∷◌, if◌then◌else◌, ◌==◌}
use cli_relay.Prelude.Int.{ℤ, pos}
use cli_relay.Prelude.Text.{append, trim_space, split_lines, trim_newlines}
use cli_relay.Json.{Json, null, number, text, array, object, Fields, end, field, of_int}
use cli_relay.Provider.Codec.{Codec, decoded_map}
use cli_relay.Provider.Values.{as_text, as_text?, as_int, as_object, as_object?, read, items}
use cli_relay.Provider.Chunks.{data_of, data_line}
use cli_relay.Provider.Anthropic.Adaptor.{map_finish_reason}

-- `anthropicStreamState`
pub record AnthropicStreamState : Type 0 where
  pub msg_id : String
  pub model : String
  pub role_id : String
  pub input_tokens : ℤ

abbrev pub new_stream_state : AnthropicStreamState
new_stream_state = record { msg_id = ""; model = ""; role_id = ""; input_tokens = pos 0 }

abbrev pub reason_or_null : String → Json
reason_or_null reason = if reason == "" then null else text reason

abbrev pub chunk_choices : Fields → Json → Json
chunk_choices delta reason = array (
    items (
      object (
        field "index" (number (of_int (pos 0)))
          (field "delta" (object delta) (field "finish_reason" reason end)))
      ∷ []))

unfoldable pub build_open_ai_chunk : String → String → Fields → String → Fields
unfolding items
build_open_ai_chunk id model delta finish_reason = field "id" (text id) (
    field "object" (text "chat.completion.chunk") (
      field "model" (text model)
        (field "choices" (chunk_choices delta (reason_or_null finish_reason)) end)))

abbrev text_or : Option String → String → String
text_or none kept = kept
text_or (some s) kept = s

abbrev tokens_or : Option Fields → ℤ → ℤ
tokens_or none kept = kept
tokens_or (some usage) kept = as_int (read "input_tokens" usage)

abbrev take_message : Option Fields → AnthropicStreamState → AnthropicStreamState
take_message none s = s
take_message (some msg) s = record s {
  msg_id = text_or (as_text? (read "id" msg)) s.msg_id;
  model = text_or (as_text? (read "model" msg)) s.model;
  input_tokens = tokens_or (as_object? (read "usage" msg)) s.input_tokens;
}

-- The id of the chunks is the first id of a message.
abbrev name_role : AnthropicStreamState → AnthropicStreamState
name_role s = record s {
  role_id =
      if s.role_id == ""
      then if s.msg_id == "" then "chatcmpl-anthropic" else s.msg_id
      else s.role_id;
}

abbrev pub call_delta : Fields → Fields
call_delta tc = field "tool_calls" (array (items (object tc ∷ []))) end

abbrev started_call : ℤ → Fields → Fields
started_call idx block = field "index" (number (of_int idx)) (
    field "id" (text (as_text (read "id" block))) (
      field "type" (text "function") (
        field "function"
          (object
            (field "name" (text (as_text (read "name" block))) (field "arguments" (text "") end)))
          end)))

abbrev continued_call : ℤ → String → Fields
continued_call idx partial_json =
    field "index" (number (of_int idx))
      (field "function" (object (field "arguments" (text partial_json) end)) end)

abbrev output_tokens : Option Fields → ℤ
output_tokens none = pos 0
output_tokens (some u) = as_int (read "output_tokens" u)

abbrev pub final_chunk : AnthropicStreamState → String → ℤ → Fields
final_chunk s finish_reason completion = field "id" (text s.role_id) (
    field "object" (text "chat.completion.chunk") (
      field "model" (text s.model) (
        field "choices" (chunk_choices end (text finish_reason)) (
          field "usage"
            (object (
              field "prompt_tokens" (number (of_int s.input_tokens))
                (field "completion_tokens" (number (of_int completion)) end)))
            end))))

module _ (s : AnthropicStreamState) (event : Fields) where
  abbrev pub chunk_with : Fields → Option Fields
  chunk_with delta = some (build_open_ai_chunk s.role_id s.model delta "")

  unfoldable pub block_start_chunk : Option Fields
  unfolding build_open_ai_chunk items
  block_start_chunk =
      let block = as_object (read "content_block" event) in
      if as_text (read "type" block) == "tool_use"
      then chunk_with (call_delta (started_call (as_int (read "index" event)) block))
      else none

  abbrev pub delta_chunk : Option Fields → Option Fields
  delta_chunk none = none
  delta_chunk (some delta) =
      let type = as_text (read "type" delta) in
      if type == "text_delta"
      then chunk_with (field "content" (text (as_text (read "text" delta))) end)
      else if type == "input_json_delta"
      then chunk_with (
          call_delta
            (continued_call (as_int (read "index" event)) (as_text (read "partial_json" delta))))
      else none

  unfoldable pub block_delta_chunk : Option Fields
  unfolding build_open_ai_chunk items
  block_delta_chunk = delta_chunk (as_object? (read "delta" event))

  unfoldable pub message_delta_chunk : Fields
  unfolding map_finish_reason items
  message_delta_chunk =
      final_chunk s
        (map_finish_reason (as_text (read "stop_reason" (as_object (read "delta" event)))))
        (output_tokens (as_object? (read "usage" event)))

-- One event; what is no event of these types is skipped.
unfoldable pub convert_event : AnthropicStreamState → Fields → AnthropicStreamState × Option Fields
unfolding build_open_ai_chunk block_start_chunk block_delta_chunk message_delta_chunk
convert_event s event =
    let type = as_text (read "type" event) in
    let named = name_role (take_message (as_object? (read "message" event)) s) in
    if type == "message_start"
    then (
      named,
      some (build_open_ai_chunk named.role_id named.model (field "role" (text "assistant") end) ""),
    )
    else if type == "content_block_start"
    then (s, block_start_chunk s event)
    else if type == "content_block_delta"
    then (s, block_delta_chunk s event)
    else if type == "message_delta"
    then (s, some (message_delta_chunk s event))
    else (s, none)

module _ (codec : Codec) where
  abbrev printed : AnthropicStreamState × Option Fields → AnthropicStreamState × Option String
  printed (s, none) = (s, none)
  printed (s, some chunk) = (s, some (data_line codec chunk))

  abbrev convert_map : AnthropicStreamState → Option Fields → AnthropicStreamState × Option String
  convert_map s none = (s, none)
  convert_map s (some event) = printed (convert_event s event)

  abbrev convert_data : AnthropicStreamState → Option String → AnthropicStreamState × Option String
  convert_data s none = (s, none)
  convert_data s (some written) =
      if written == "[DONE]"
      then (s, none)
      else convert_map s (decoded_map (codec.unmarshal written))

  unfoldable pub convert_line : AnthropicStreamState → String → AnthropicStreamState × Option String
  unfolding convert_event data_of data_line
  convert_line s line = convert_data s (data_of line)

  abbrev cons_line : Option String → List String → List String
  cons_line none rest = rest
  cons_line (some converted) rest = trim_newlines converted ∷ rest

  unfoldable pub convert_lines : AnthropicStreamState → List String → List String
  unfolding convert_line trim_newlines
  convert_lines s [] = []
  convert_lines s (line ∷ lines) =
      let (next, converted) = convert_line s line in
      let skipped = trim_space line == "" in
      let rest = convert_lines (if skipped then s else next) lines in
      if skipped then rest else cons_line converted rest

abbrev join_blocks : List String → String
join_blocks [] = "data: [DONE]\n\n"
join_blocks (block ∷ blocks) = append block (append "\n\n" (join_blocks blocks))

abbrev pub buffer_of : String → List String → String
buffer_of sse_body [] = sse_body
buffer_of sse_body (block ∷ blocks) = join_blocks (block ∷ blocks)

-- A body that holds no event is handed on as it is.
unfoldable pub convert_anthropic_sse_buffer : Codec → String → String
unfolding convert_lines split_lines append
convert_anthropic_sse_buffer codec sse_body =
    buffer_of sse_body (convert_lines codec new_stream_state (split_lines sse_body))
