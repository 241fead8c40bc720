-- ===== src/Provider/Gemini/Responses.antt =====
-- internal/relay/provider/gemini/response_convert.go, and mapGeminiFinishReason of adaptor.go: answers
-- of `generateContent`, read into the internal form and written from it.
use cli_relay.Prelude.{
  ℕ, suc, String, Option, none, some, List, [], ◌∷◌, ◌++◌, if◌then◌else◌, ◌==◌, ◌||◌,
}
use cli_relay.Prelude.Int.{pos, ◌+ℤ◌, int64}
use cli_relay.Prelude.Text.{append}
use cli_relay.Prelude.Results.{Result, ok, ◌>>=◌}
use cli_relay.Json.{Json, number, text, array, object, Fields, end, field, of_int}
use cli_relay.Relay.Http.{Body, json}
use cli_relay.Provider.Internal.{
  InternalMessage, InternalContentPart, InternalToolCall, InternalResponse, InternalChoice,
  InternalUsage,
}
use cli_relay.Provider.Values.{
  as_text, as_text?, as_int, as_object, as_object?, as_list, objects, read, decode_map, put_some,
  items,
}
use cli_relay.Provider.Codec.{Codec, RandomHex, map_or_empty}
use cli_relay.Provider.Anthropic.Parse.{bare_message, add_call}
use cli_relay.Provider.Gemini.Parse.{add_text}
use cli_relay.Provider.Gemini.Build.{text_only, or_empty_text, function_call_part}

unfoldable pub map_gemini_finish_reason : String → String
map_gemini_finish_reason reason =
    if reason == "MAX_TOKENS"
    then "length"
    else if reason == "SAFETY" || reason == "RECITATION"
    then "content_filter"
    else "stop"

unfoldable pub map_internal_finish_reason : String → String
map_internal_finish_reason reason =
    if reason == "length"
    then "MAX_TOKENS"
    else if reason == "content_filter"
    then "SAFETY"
    else "STOP"

-- `if fr, ok := cand["finishReason"].(string); ok`
abbrev pub finish_of : Option String → String
finish_of none = ""
finish_of (some reason) = map_gemini_finish_reason reason

module _ (codec : Codec) (random_hex : RandomHex) where
  abbrev pub answered_call : ℕ → Fields → InternalToolCall
  answered_call drawn fc = record {
    id = append "fc_" (random_hex drawn 8);
    name = as_text (read "name" fc);
    arguments = codec.marshal (read "args" fc);
  }

  abbrev add_answered : Option Fields → ℕ × InternalMessage → ℕ × InternalMessage
  add_answered none (drawn, im) = (drawn, im)
  add_answered (some fc) (drawn, im) = (suc drawn, add_call (answered_call drawn fc) im)

  unfoldable pub add_answer_part : Fields → ℕ × InternalMessage → ℕ × InternalMessage
  add_answer_part part (drawn, im) =
      add_answered (as_object? (read "functionCall" part))
        (drawn, add_text (as_text? (read "text" part)) im)

  unfoldable pub add_answer_parts : List Fields → ℕ × InternalMessage → ℕ × InternalMessage
  add_answer_parts [] state = state
  add_answer_parts (part ∷ parts) state = add_answer_parts parts (add_answer_part part state)

  -- The first candidate is the only choice. The first name that is drawn is the answer's.
  unfoldable pub choice_of_candidate : Fields → InternalChoice
  unfolding map_gemini_finish_reason add_answer_parts add_answer_part
  choice_of_candidate cand =
      let parts = objects (as_list (read "parts" (as_object (read "content" cand)))) in
      let (drawn, im) = add_answer_parts parts (1, bare_message "" []) in
      record {
        index = pos 0;
        message = im;
        finish_reason = finish_of (as_text? (read "finishReason" cand));
      }

  abbrev choices_of : List Json → List InternalChoice
  choices_of [] = []
  choices_of (cand ∷ cands) = choice_of_candidate (as_object cand) ∷ []

  abbrev pub parse_gemini_usage : Fields → InternalUsage
  parse_gemini_usage um = record {
    prompt_tokens = as_int (read "promptTokenCount" um);
    completion_tokens = as_int (read "candidatesTokenCount" um);
  }

  unfoldable pub gemini_response_of : Fields → InternalResponse
  unfolding choice_of_candidate
  gemini_response_of resp = record {
    id = append "gemini-" (random_hex 0 16);
    model = "";
    choices = choices_of (as_list (read "candidates" resp));
    usage = parse_gemini_usage (as_object (read "usageMetadata" resp));
  }

  unfoldable pub gemini_response_to_internal : Body → Result InternalResponse
  unfolding gemini_response_of
  gemini_response_to_internal body =
      decode_map "parse gemini response" body >>= λ resp. ok (gemini_response_of resp)

abbrev answer_text : InternalContentPart → List Json → List Json
answer_text part rest = if part.type == "text" then text_only part.content ∷ rest else rest

unfoldable pub answer_texts : List InternalContentPart → List Json
answer_texts [] = []
answer_texts (part ∷ parts) = answer_text part (answer_texts parts)

module _ (codec : Codec) where
  unfoldable pub answer_arguments : String → Json
  answer_arguments arguments =
      if arguments == "" then object end else map_or_empty (codec.unmarshal arguments)

  unfoldable pub answer_calls : List InternalToolCall → List Json
  unfolding answer_arguments
  answer_calls [] = []
  answer_calls (tc ∷ rest) =
      function_call_part tc.name (answer_arguments tc.arguments) ∷ answer_calls rest

  -- What the first choice says; an answer without a choice says nothing.
  abbrev parts_of : List InternalChoice → List Json
  parts_of [] = []
  parts_of (choice ∷ choices) =
      answer_texts choice.message.content ++ answer_calls choice.message.tool_calls

  abbrev reason_of : List InternalChoice → Option Json
  reason_of [] = none
  reason_of (choice ∷ choices) = some (text (map_internal_finish_reason choice.finish_reason))

  unfoldable pub gemini_candidate : List InternalChoice → Fields
  unfolding put_some answer_texts answer_calls map_internal_finish_reason items
  gemini_candidate choices =
      let content = object (
        field "parts" (array (items (or_empty_text (parts_of choices))))
          (field "role" (text "model") end)) in
      put_some "content" (some content) (put_some "finishReason" (reason_of choices) end)

  unfoldable pub gemini_usage : InternalUsage → Fields
  gemini_usage usage = field "promptTokenCount" (number (of_int usage.prompt_tokens)) (
      field "candidatesTokenCount" (number (of_int usage.completion_tokens)) (
        field "totalTokenCount"
          (number (of_int (int64 (usage.prompt_tokens +ℤ usage.completion_tokens)))) end))

  unfoldable pub gemini_response : InternalResponse → Fields
  unfolding gemini_candidate gemini_usage items
  gemini_response resp =
      field "candidates" (array (items (object (gemini_candidate resp.choices) ∷ [])))
        (field "usageMetadata" (object (gemini_usage resp.usage)) end)

  unfoldable pub internal_to_gemini_response : InternalResponse → Result Body
  unfolding gemini_response
  internal_to_gemini_response resp = ok (json (object (gemini_response resp)))
