-- ===== src/Provider/Anthropic/Adaptor.antt =====
-- internal/relay/provider/anthropic/adaptor.go: `AnthropicAdaptor`.
use cli_relay.Prelude.{String, List, [], ◌∷◌, if◌then◌else◌, ◌==◌}
use cli_relay.Prelude.Int.{ℤ, pos, ltb_ℤ}
use cli_relay.Prelude.Text.{append, trim_slashes, has_suffix}
use cli_relay.Prelude.Results.{Result, ok, err, ◌>>=◌}
use cli_relay.Db.{Channel}
use cli_relay.Json.{Fields}
use cli_relay.Relay.Http.{Body}
use cli_relay.Provider.Values.{read, decode_map, decode_struct, decode_int, decode_counts}
use cli_relay.Provider.Codec.{Codec}
use cli_relay.Provider.Credentials.{extract_credential_key}
use cli_relay.Provider.OpenAi.Adaptor.{or_none}

unfoldable pub get_request_url : Channel → String → String
unfolding append trim_slashes has_suffix
get_request_url channel path =
    let base = trim_slashes channel.endpoint in
    if has_suffix "/chat/completions" path then append base "/v1/messages" else append base path

unfoldable pub setup_request_header : Codec → String → List (String × String)
unfolding extract_credential_key
setup_request_header codec credentials =
    ("x-api-key", extract_credential_key codec credentials)
    ∷ ("anthropic-version", "2023-06-01")
    ∷ ("Content-Type", "application/json")
    ∷ []

unfoldable pub parse_usage : Body → Result (ℤ × ℤ)
unfolding decode_counts
parse_usage body =
    let context : String = "parse anthropic response" in
    decode_map context body >>= λ resp.
    decode_counts context "usage" "input_tokens" "output_tokens" resp

-- The usage of an event: what went in stands in its message, what came out beside it.
unfoldable pub event_usage : Fields → Result (ℤ × ℤ)
unfolding read
event_usage event =
    let context : String = "parse anthropic event" in
    decode_struct context (read "usage" event) >>= λ usage.
    decode_int context (read "output_tokens" usage) >>= λ output.
    decode_struct context (read "message" event) >>= λ message.
    decode_struct context (read "usage" message) >>= λ counts.
    decode_int context (read "input_tokens" counts) >>= λ input. ok (input, output)

-- The usage of a chunk in the format of Chat Completions, where it counts a prompt.
abbrev pub converted_or : Result (ℤ × ℤ) → ℤ × ℤ → ℤ × ℤ
converted_or (err e) other = other
converted_or (ok (prompt, completion)) other =
    if ltb_ℤ (pos 0) prompt then (prompt, completion) else other

abbrev pub converted_usage : Body → Result (ℤ × ℤ)
converted_usage chunk = decode_map "chunk" chunk >>= λ resp.
    decode_counts "chunk" "usage" "prompt_tokens" "completion_tokens" resp

unfoldable pub parse_stream_usage : Body → ℤ × ℤ
unfolding event_usage decode_counts
parse_stream_usage last_chunk =
    converted_or (converted_usage last_chunk)
      (or_none (decode_map "event" last_chunk >>= λ event. event_usage event))

-- The reasons of a stream.
unfoldable pub map_finish_reason : String → String
map_finish_reason reason =
    if reason == "tool_use"
    then "tool_calls"
    else if reason == "max_tokens"
    then "length"
    else "stop"
