-- ===== src/Provider/OpenAi/Adaptor.antt =====
-- internal/relay/provider/openai/adaptor.go: `OpenAIAdaptor`. A header is a name and a value.
use cli_relay.Prelude.{String, List, [], ◌∷◌, if◌then◌else◌, ◌==◌, ◌&&◌}
use cli_relay.Prelude.Int.{ℤ, pos}
use cli_relay.Prelude.Text.{append, trim_slashes, has_suffix}
use cli_relay.Prelude.Results.{Result, ok, err, ◌>>=◌}
use cli_relay.Db.{Channel}
use cli_relay.Relay.Http.{Body}
use cli_relay.Provider.Values.{decode_map, decode_counts}
use cli_relay.Provider.Codec.{Codec}
use cli_relay.Provider.Credentials.{extract_credential_key}
use cli_relay.Provider.Internal.{InternalRequest}
use cli_relay.Provider.OpenAi.Build.{internal_to_responses, internal_to_open_ai_chat}

unfoldable pub get_request_url : Channel → String → String
unfolding append trim_slashes has_suffix
get_request_url channel path =
    let base = trim_slashes channel.endpoint in
    if channel.api_format == "responses" && has_suffix "/chat/completions" path
    then append base "/v1/responses"
    else append base path

unfoldable pub setup_request_header : Codec → String → List (String × String)
unfolding append extract_credential_key
setup_request_header codec credentials =
    ("Authorization", append "Bearer " (extract_credential_key codec credentials))
    ∷ ("Content-Type", "application/json")
    ∷ []

unfoldable pub from_internal : Channel → InternalRequest → Result Body
unfolding internal_to_responses internal_to_open_ai_chat
from_internal channel req =
    if channel.api_format == "responses"
    then internal_to_responses req
    else internal_to_open_ai_chat req

-- The total of the tokens is decoded too, and has to be an integer.
unfoldable pub parse_usage : Body → Result (ℤ × ℤ)
unfolding decode_counts
parse_usage body =
    let context : String = "parse openai response" in
    decode_map context body >>= λ resp.
    decode_counts context "usage" "prompt_tokens" "completion_tokens" resp >>= λ counts.
    decode_counts context "usage" "total_tokens" "total_tokens" resp >>= λ total. ok counts

abbrev pub or_none : Result (ℤ × ℤ) → ℤ × ℤ
or_none (ok counts) = counts
or_none (err e) = (pos 0, pos 0)

unfoldable pub parse_stream_usage : Body → ℤ × ℤ
unfolding parse_usage
parse_stream_usage last_chunk = or_none (parse_usage last_chunk)
