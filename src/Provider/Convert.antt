-- ===== src/Provider/Convert.antt =====
-- internal/relay/provider/convert.go, with the `init` functions of the providers' adaptors: the
-- converters that are registered for a format, and the conversion of requests and answers.
use cli_relay.Prelude.{String, Option, none, some, if◌then◌else◌}
use cli_relay.Prelude.Results.{Result, ok, err, ◌>>=◌}
use cli_relay.Relay.Http.{Body}
use cli_relay.Relay.Access.{Format, openai_chat, openai_resp, anthropic, gemini, same_format}
use cli_relay.Provider.Internal.{InternalRequest, InternalResponse}
use cli_relay.Provider.Codec.{Codec, RandomHex}
use cli_relay.Provider.OpenAi.Parse.{open_ai_chat_to_internal}
use cli_relay.Provider.OpenAi.Build.{internal_to_open_ai_chat, internal_to_responses}
use cli_relay.Provider.OpenAi.Responses.{open_ai_response_to_internal, internal_to_open_ai_response}
use cli_relay.Provider.Anthropic.Parse.{anthropic_to_internal}
use cli_relay.Provider.Anthropic.Build.{internal_to_anthropic}
use cli_relay.Provider.Anthropic.Responses.{
  anthropic_response_to_internal, internal_to_anthropic_response,
}
use cli_relay.Provider.Gemini.Parse.{gemini_to_internal}
use cli_relay.Provider.Gemini.Build.{internal_to_gemini}
use cli_relay.Provider.Gemini.Responses.{gemini_response_to_internal, internal_to_gemini_response}

-- `map[Format]func`
abbrev pub Registry : Type 0 → Type 0
Registry Converter = Format → Option Converter

abbrev pub unregistered : {Converter : Type 0} → Registry Converter
unregistered format = none

abbrev pub register_converter :
    {Converter : Type 0} → Format → Converter → Registry Converter → Registry Converter
register_converter format converter registry wanted =
    if same_format format wanted then some converter else registry wanted

module _ (codec : Codec) (random_hex : RandomHex) where
  abbrev pub to_internal_converters : Registry (Body → Result InternalRequest)
  to_internal_converters = register_converter openai_resp open_ai_chat_to_internal (
      register_converter openai_chat open_ai_chat_to_internal (
        register_converter gemini (gemini_to_internal codec random_hex)
          (register_converter anthropic (anthropic_to_internal codec) unregistered)))

  abbrev pub to_response_internal : Registry (Body → Result InternalResponse)
  to_response_internal = register_converter openai_chat open_ai_response_to_internal (
      register_converter gemini (gemini_response_to_internal codec random_hex)
        (register_converter anthropic (anthropic_response_to_internal codec) unregistered))

module _ (codec : Codec) where
  abbrev pub from_internal_converters : Registry (InternalRequest → Result Body)
  from_internal_converters = register_converter openai_resp internal_to_responses (
      register_converter openai_chat internal_to_open_ai_chat (
        register_converter gemini (internal_to_gemini codec)
          (register_converter anthropic (internal_to_anthropic codec) unregistered)))

  abbrev pub from_response_internal : Registry (InternalResponse → Result Body)
  from_response_internal = register_converter openai_chat internal_to_open_ai_response (
      register_converter gemini (internal_to_gemini_response codec)
        (register_converter anthropic (internal_to_anthropic_response codec) unregistered))

abbrev found : {Converter : Type 0} → String → Option Converter → Result Converter
found message none = err message
found message (some converter) = ok converter

module _ (codec : Codec) (random_hex : RandomHex) where
  unfoldable pub convert_request : Format → Format → Body → Result Body
  convert_request client_format upstream_format body =
      if same_format client_format upstream_format
      then ok body
      else found "no ToInternal converter for format"
          (to_internal_converters codec random_hex client_format)
        >>= λ to_internal. to_internal body >>= λ internal.
            found "no FromInternal converter for format"
              (from_internal_converters codec upstream_format)
            >>= λ from_internal. from_internal internal

  unfoldable pub convert_response : Format → Format → Body → Result Body
  convert_response upstream_format client_format body =
      if same_format upstream_format client_format
      then ok body
      else found "no response ToInternal converter for format"
          (to_response_internal codec random_hex upstream_format)
        >>= λ to_resp. to_resp body >>= λ internal.
            found "no response FromInternal converter for format"
              (from_response_internal codec client_format)
            >>= λ from_resp. from_resp internal
