-- ===== src/Relay/Requests.antt =====
-- internal/relay/handler.go: the bodies that the handler reads: the request, its `stream` flag, and the
-- usage that an answer reports.
use cli_relay.Prelude.{
  String, Bool, true, false, Option, none, some, List, [], if◌then◌else◌, ◌&&◌, ◌||◌,
}
use cli_relay.Prelude.Int.{ℤ, pos, ltb_ℤ, eqb_ℤ, fits_int64}
use cli_relay.Prelude.Maps.{lookup, insert}
use cli_relay.Json.{
  Json, null, boolean, number, text, object, of_int, to_int, decode_fields, encode_fields,
}
use cli_relay.Relay.Http.{Body, json}

-- `relayRequest`
pub record RelayRequest : Type 0 where
  pub model : String
  pub stream : Bool
  pub max_tokens : ℤ

-- The fields of a Go struct as `json.Unmarshal` decodes them: what is absent or null keeps the zero
-- value, another type is an error. A key is matched in the case in which it is declared.
abbrev decode_string : Option Json → Option String
decode_string none = some ""
decode_string (some null) = some ""
decode_string (some (text s)) = some s
decode_string (some _) = none

abbrev decode_bool : Option Json → Option Bool
decode_bool none = some false
decode_bool (some null) = some false
decode_bool (some (boolean b)) = some b
decode_bool (some _) = none

abbrev decode_int : Option Json → Option ℤ
decode_int none = some (pos 0)
decode_int (some null) = some (pos 0)
decode_int (some (number f)) =
    if eqb_ℤ (of_int (to_int f)) f && fits_int64 (to_int f) then some (to_int f) else none
decode_int (some _) = none

abbrev request_of : Option String → Option Bool → Option ℤ → Option RelayRequest
request_of (some model) (some stream) (some max_tokens) =
    some (record { model = model; stream = stream; max_tokens = max_tokens })
request_of _ _ _ = none

abbrev decode_request : List (String × Json) → Option RelayRequest
decode_request m =
    request_of (decode_string (lookup "model" m)) (decode_bool (lookup "stream" m))
      (decode_int (lookup "max_tokens" m))

-- `json.Unmarshal(body, &req)`
unfoldable pub parse_request : Body → Option RelayRequest
parse_request (json (object fs)) = decode_request (decode_fields [] fs)
parse_request (json null) = decode_request []
parse_request _ = none

unfoldable pub inject_stream_true : Body → Body
inject_stream_true (json (object fs)) =
    json (object (encode_fields (insert "stream" (boolean true) (decode_fields [] fs))))
inject_stream_true content = content

abbrev usage_of : Option ℤ → Option ℤ → ℤ × ℤ
usage_of (some prompt) (some completion) =
    if ltb_ℤ (pos 0) prompt || ltb_ℤ (pos 0) completion
    then (prompt, completion)
    else (pos 0, pos 0)
usage_of _ _ = (pos 0, pos 0)

abbrev usage_in : Option Json → ℤ × ℤ
usage_in (some (object fs)) =
    let m = decode_fields [] fs in
    usage_of (decode_int (lookup "prompt_tokens" m)) (decode_int (lookup "completion_tokens" m))
usage_in _ = (pos 0, pos 0)

unfoldable pub parse_non_stream_usage : Body → ℤ × ℤ
parse_non_stream_usage (json (object fs)) = usage_in (lookup "usage" (decode_fields [] fs))
parse_non_stream_usage _ = (pos 0, pos 0)
