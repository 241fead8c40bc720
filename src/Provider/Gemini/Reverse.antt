-- ===== src/Provider/Gemini/Reverse.antt =====
-- internal/relay/provider/gemini/streaming.go: chunks of the Chat Completions API, converted back to
-- chunks of `streamGenerateContent`.
use cli_relay.Prelude.{String, Option, none, some, List, [], ◌∷◌, ◌++◌, if◌then◌else◌, ◌==◌}
use cli_relay.Prelude.Int.{ℤ}
use cli_relay.Prelude.Results.{Result, ok, err}
use cli_relay.Json.{Json, text, array, object, Fields, end, field}
use cli_relay.Provider.Codec.{Codec, decoded_map}
use cli_relay.Provider.Values.{as_text, as_object?, as_list, objects, read, put_some, items}
use cli_relay.Provider.Chunks.{Chunk, ChunkChoice, decode_chunk, data_of, data_line}
use cli_relay.Provider.Gemini.Build.{text_only, function_call_part}
use cli_relay.Provider.Gemini.Responses.{answer_arguments, gemini_usage}

-- `geminiReverseState`
pub record GeminiReverseState : Type 0 where
  pub model : String

abbrev pub new_gemini_reverse_state : GeminiReverseState
new_gemini_reverse_state = record { model = "" }

-- The function `mapOpenAIFinishReasonToGemini`.
unfoldable pub map_open_ai_finish_reason_to_gemini : String → String
map_open_ai_finish_reason_to_gemini reason =
    if reason == "length"
    then "MAX_TOKENS"
    else if reason == "content_filter"
    then "SAFETY"
    else "STOP"

unfoldable pub text_parts : String → List Json
text_parts content = if content == "" then [] else text_only content ∷ []

abbrev pub usage_value : Codec → Option (ℤ × ℤ) → Option Json
usage_value codec none = none
usage_value codec (some (prompt, completion)) = some (
    object (gemini_usage codec (record { prompt_tokens = prompt; completion_tokens = completion })))

module _ (codec : Codec) where
  abbrev pub streamed_part : Option Fields → List Json → List Json
  streamed_part none rest = rest
  streamed_part (some fn) rest =
      function_call_part (as_text (read "name" fn))
        (answer_arguments codec (as_text (read "arguments" fn)))
      ∷ rest

  unfoldable pub streamed_parts : List Fields → List Json
  unfolding answer_arguments
  streamed_parts [] = []
  streamed_parts (tc ∷ tcs) = streamed_part (as_object? (read "function" tc)) (streamed_parts tcs)

  unfoldable pub delta_parts : Fields → List Json
  unfolding text_parts streamed_parts
  delta_parts delta =
      text_parts (as_text (read "content" delta))
      ++ streamed_parts (objects (as_list (read "tool_calls" delta)))

  abbrev reason_value : Option String → Option Json
  reason_value none = none
  reason_value (some reason) = some (text (map_open_ai_finish_reason_to_gemini reason))

  unfoldable pub gemini_chunk : List Json → Option String → Option (ℤ × ℤ) → Fields
  unfolding put_some map_open_ai_finish_reason_to_gemini gemini_usage items
  gemini_chunk parts reason usage =
      let content =
        object (field "parts" (array (items parts)) (field "role" (text "model") end)) in
      let candidate = put_some "finishReason" (reason_value reason) (field "content" content end) in
      put_some "usageMetadata" (usage_value codec usage)
        (field "candidates" (array (items (object candidate ∷ []))) end)

  -- A delta that only names the role is skipped.
  abbrev pub chunk_unless_bare : List Json → Option String → Option (ℤ × ℤ) → Option Fields
  chunk_unless_bare [] none none = none
  chunk_unless_bare parts reason usage = some (gemini_chunk parts reason usage)

  abbrev build_usage_chunk : Option Json → Option Fields
  build_usage_chunk none = none
  build_usage_chunk (some usage) = some (field "usageMetadata" usage end)

  abbrev pub convert_first : Option (ℤ × ℤ) → List ChunkChoice → Option Fields
  convert_first usage [] = build_usage_chunk (usage_value codec usage)
  convert_first usage (choice ∷ choices) =
      chunk_unless_bare (delta_parts choice.delta) choice.finish_reason usage

  abbrev keep_model : String → GeminiReverseState → GeminiReverseState
  keep_model model s = if model == "" then s else record { model = model }

  abbrev pub reverse_result : Result Chunk → GeminiReverseState → GeminiReverseState × Option Fields
  reverse_result (err e) s = (s, none)
  reverse_result (ok chunk) s = (keep_model chunk.model s, convert_first chunk.usage chunk.choices)

  unfoldable pub reverse_gemini_chunk :
      Fields → GeminiReverseState → GeminiReverseState × Option Fields
  unfolding gemini_chunk delta_parts gemini_usage
  reverse_gemini_chunk fs s = reverse_result (decode_chunk fs) s

  abbrev printed : GeminiReverseState × Option Fields → GeminiReverseState × Option String
  printed (s, none) = (s, none)
  printed (s, some chunk) = (s, some (data_line codec chunk))

  abbrev reverse_map : Option Fields → GeminiReverseState → GeminiReverseState × Option String
  reverse_map none s = (s, none)
  reverse_map (some fs) s = printed (reverse_gemini_chunk fs s)

  abbrev reverse_data : Option String → GeminiReverseState → GeminiReverseState × Option String
  reverse_data none s = (s, none)
  reverse_data (some written) s =
      if written == "[DONE]"
      then (s, some "data: [DONE]\n\n")
      else reverse_map (decoded_map (codec.unmarshal written)) s

  unfoldable pub convert_gemini_reverse_line :
      GeminiReverseState → String → GeminiReverseState × Option String
  unfolding reverse_gemini_chunk data_of data_line
  convert_gemini_reverse_line s line = reverse_data (data_of line) s
