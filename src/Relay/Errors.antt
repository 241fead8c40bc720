-- ===== src/Relay/Errors.antt =====
-- internal/relay/handler.go: how an error of an upstream service reads in the client's format.
use cli_relay.Prelude.{
  String, Bool, true, false, Option, none, some, List, [], if◌then◌else◌, ◌==◌, ◌&&◌, not, is_some,
}
use cli_relay.Prelude.Int.{pos, eqb_ℤ, fits_int64}
use cli_relay.Prelude.Maps.{lookup}
use cli_relay.Prelude.Text.{strip_prefix?}
use cli_relay.Json.{
  Json, Fields, null, number, text, object, end, field, of_int, to_int, decode_fields,
}
use cli_relay.Relay.Http.{Body, json, raw}
use cli_relay.Relay.Access.{Format, openai_chat, openai_resp, anthropic, gemini}

abbrev unprefixed : String → Option String → String
unprefixed msg none = msg
unprefixed msg (some rest) = rest

-- One round of the loop of `stripProviderInfo`.
abbrev strip_one : String → String → String
strip_one prefix msg = unprefixed msg (strip_prefix? prefix msg)

unfoldable pub strip_provider_info : String → String
strip_provider_info msg = strip_one "req_" (strip_one "org-" msg)

abbrev text_field : String → String → Fields → Fields
text_field k v fs = field k (text v) fs

unfoldable pub format_openai_error : String → Json
format_openai_error msg =
    object
      (field "error" (object (text_field "message" msg (text_field "type" "relay_error" end))) end)

unfoldable pub format_anthropic_error : String → Json
format_anthropic_error msg = object (
    field "error" (object (text_field "message" msg (text_field "type" "api_error" end)))
      (text_field "type" "error" end))

unfoldable pub format_gemini_error : String → Json
format_gemini_error msg = object (
    field "error"
      (object (
        field "code" (number (pos 500000000))
          (text_field "message" msg (text_field "status" "INTERNAL" end))))
      end)

-- A field of a Go struct that decodes a string: absent or null reads as empty, another type fails.
abbrev string_field : Option Json → Option String
string_field none = some ""
string_field (some null) = some ""
string_field (some (text s)) = some s
string_field (some _) = none

-- A field that decodes an int.
abbrev is_int_field : Option Json → Bool
is_int_field none = true
is_int_field (some null) = true
is_int_field (some (number f)) = eqb_ℤ (of_int (to_int f)) f && fits_int64 (to_int f)
is_int_field (some _) = false

abbrev is_string_field : Option Json → Bool
is_string_field v = is_some (string_field v)

abbrev default_message : String
default_message = "upstream error"

abbrev message_if : Bool → Option String → Option String
message_if true msg = msg
message_if false msg = none

-- The message of `openaiStyle.Error`, empty where that is nil; `none` where decoding fails.
abbrev openai_error : Option Json → Option String
openai_error none = some ""
openai_error (some null) = some ""
openai_error (some (object fs)) =
    let m = decode_fields [] fs in
    message_if (is_string_field (lookup "type" m) && is_string_field (lookup "code" m))
      (string_field (lookup "message" m))
openai_error (some _) = none

abbrev first_message : Option String → Option String → Option String → String
first_message (some e) (some message) (some detail) =
    if not (e == "")
    then e
    else if not (message == "")
    then message
    else if not (detail == "")
    then detail
    else default_message
first_message _ _ _ = default_message

-- `openaiStyle`, and `geminiStyle` for what it leaves at the default.
unfoldable pub openai_style : List (String × Json) → String
openai_style m =
    first_message (openai_error (lookup "error" m)) (string_field (lookup "message" m))
      (string_field (lookup "detail" m))

abbrev gemini_error : Option Json → Option String
gemini_error none = some ""
gemini_error (some null) = some ""
gemini_error (some (object fs)) =
    let m = decode_fields [] fs in
    message_if (is_int_field (lookup "code" m) && is_string_field (lookup "status" m))
      (string_field (lookup "message" m))
gemini_error (some _) = none

abbrev non_empty_or_default : Option String → String
non_empty_or_default none = default_message
non_empty_or_default (some msg) = if msg == "" then default_message else msg

unfoldable pub gemini_style : List (String × Json) → String
gemini_style m = non_empty_or_default (gemini_error (lookup "error" m))

abbrev pub error_message : Body → String
error_message (raw s) = default_message
error_message (json (object fs)) =
    let m = decode_fields [] fs in
    let msg = openai_style m in if msg == default_message then gemini_style m else msg
error_message (json _) = default_message

abbrev pub format_error : Format → String → Json
format_error anthropic msg = format_anthropic_error msg
format_error gemini msg = format_gemini_error msg
format_error openai_chat msg = format_openai_error msg
format_error openai_resp msg = format_openai_error msg

unfoldable pub normalize_error_response : Body → Format → Body
unfolding openai_style gemini_style strip_provider_info format_openai_error format_anthropic_error
    format_gemini_error
normalize_error_response content format =
    json (format_error format (strip_provider_info (error_message content)))
