-- ===== src/Provider/Gemini/Adaptor.antt =====
-- internal/relay/provider/gemini/adaptor.go: `GeminiAdaptor`. The URL is written with the headers, and
-- a key goes into the query.
use cli_relay.Prelude.{String, Bool, List, ◌∷◌, if◌then◌else◌, ◌==◌}
use cli_relay.Prelude.Int.{ℤ}
use cli_relay.Prelude.Text.{append, trim_slashes}
use cli_relay.Prelude.Results.{Result, ◌>>=◌}
use cli_relay.Db.{Channel}
use cli_relay.Relay.Http.{Body}
use cli_relay.Provider.Values.{decode_map, decode_counts}
use cli_relay.Provider.Codec.{Codec}
use cli_relay.Provider.Credentials.{extract_credential_key}
use cli_relay.Provider.OpenAi.Adaptor.{or_none}
use cli_relay.Provider.Anthropic.Adaptor.{converted_or, converted_usage}

-- What is set of an `fasthttp.Request`.
pub record Outgoing : Type 0 where
  pub uri : String
  pub headers : List (String × String)
  pub query : List (String × String)

unfoldable pub get_request_url : Channel → String
unfolding append trim_slashes
get_request_url channel = append (trim_slashes channel.endpoint) "/placeholder"

unfoldable pub gemini_url : Channel → String → Bool → String
unfolding append trim_slashes
gemini_url channel model is_stream = append (trim_slashes channel.endpoint) (
    append "/v1beta/models/"
      (append model (if is_stream then ":streamGenerateContent?alt=sse" else ":generateContent")))

-- An account whose credential is an OAuth token sends it as a header.
unfoldable pub setup_request_header :
    Codec → Channel → String → String → Bool → Outgoing → String → Outgoing
unfolding gemini_url append extract_credential_key
setup_request_header codec channel cred_type model is_stream req credentials =
    let uri = if model == "" then req.uri else gemini_url channel model is_stream in
    let headers = ("Content-Type", "application/json") ∷ req.headers in
    let credential = extract_credential_key codec credentials in
    if cred_type == "oauth_token"
    then record {
      uri = uri;
      headers = ("Authorization", append "Bearer " credential) ∷ headers;
      query = req.query;
    }
    else record { uri = uri; headers = headers; query = ("key", credential) ∷ req.query }

unfoldable pub parse_usage : Body → Result (ℤ × ℤ)
unfolding decode_counts
parse_usage body =
    let context : String = "parse gemini response" in
    decode_map context body >>= λ resp.
    decode_counts context "usageMetadata" "promptTokenCount" "candidatesTokenCount" resp

unfoldable pub parse_stream_usage : Body → ℤ × ℤ
unfolding parse_usage decode_counts
parse_stream_usage last_chunk =
    converted_or (converted_usage last_chunk) (or_none (parse_usage last_chunk))
