-- ===== src/Provider/Tests.antt =====
-- internal/relay/provider: one conversation, its answer, and the conversions of both.
use cli_relay.Prelude.{
  String, All, map, true, false, none, some, List, [], ◌∷◌, ◌≡◌, refl, arith, if◌then◌else◌, ◌==◌,
  inl, inr,
}
use cli_relay.Prelude.Int.{pos, ◌*ℤ◌}
use cli_relay.Prelude.Results.{ok, err, ◌>>=◌, is_ok}
use cli_relay.Json.{Json, null, text, number, object, array, nil, cons, Fields, end, field}
use cli_relay.Provider.Values.{items, as_list, read, objects}
use cli_relay.Relay.Http.{Body, json}
use cli_relay.Relay.Access.{openai_chat, anthropic}
use cli_relay.Provider.Internal.{
  InternalRequest, InternalMessage, InternalContentPart, InternalToolCall, InternalTool,
  InternalResponse, InternalChoice,
}
use cli_relay.Provider.Codec.{Codec, RandomHex}
use cli_relay.Provider.Chunks.{decode_chunk, decode_choices}
use cli_relay.Provider.Settings.{HasSameSettings, IsPortable}
use cli_relay.Provider.Convert.{convert_request}
use cli_relay.Provider.Total.{is_ok-convert_request, readable}
use cli_relay.Provider.OpenAi.Parse
use cli_relay.Provider.OpenAi.Build
use cli_relay.Provider.OpenAi.Messages.{image_part, answer}
use cli_relay.Provider.OpenAi.Requests.{
  IsChatRequest, open_ai_chat_to_internal-internal_to_open_ai_chat,
}
use cli_relay.Provider.OpenAi.Responses
use cli_relay.Provider.OpenAi.Answers.{open_ai_response_to_internal-internal_to_open_ai_response}
use cli_relay.Provider.OpenAi.Lost.{open_ai_chat_to_internal-internal_to_responses}
use cli_relay.Provider.Anthropic.Parse as AnthropicParse
use cli_relay.Provider.Anthropic.Build as AnthropicBuild
use cli_relay.Provider.Anthropic.Responses as AnthropicResponses
use cli_relay.Provider.Anthropic.Settings.{anthropic_to_internal-internal_to_anthropic, bounded}
use cli_relay.Provider.Anthropic.Answers.{
  kept, anthropic_response_to_internal-internal_to_anthropic_response,
}
use cli_relay.Provider.Anthropic.Streams.{new_stream_state, build_open_ai_chunk}
use cli_relay.Provider.Anthropic.Reverse.{AnthropicReverseState}
use cli_relay.Provider.Anthropic.Words.{words}
use cli_relay.Provider.Anthropic.StreamTrip.{
  convert_stream, reverse_stream, all_text, reverse_stream-convert_stream,
}
use cli_relay.Provider.Gemini.Parse as GeminiParse
use cli_relay.Provider.Gemini.Build as GeminiBuild
use cli_relay.Provider.Gemini.Streams.{new_gemini_stream_state, convert_chunks}
use cli_relay.Provider.Gemini.Reverse.{new_gemini_reverse_state}
use cli_relay.Provider.Gemini.Words as GeminiWords
use cli_relay.Provider.Gemini.Spoken.{convert_chunks-content}
use cli_relay.Provider.Gemini.Reversed.{IsChunk, reverse_chunks, reverse_chunks-text}
use cli_relay.Provider.Gemini.Settings.{gemini_to_internal-internal_to_gemini, told}

-- A codec that knows the empty object.
abbrev codec : Codec
codec = record {
  marshal = λ v. "{}";
  unmarshal = λ s. if s == "{}" then some (object end) else none;
}

abbrev random_hex : RandomHex
random_hex = λ k n. "0a"

abbrev call : InternalToolCall
call = record { id = "call_1"; name = "weather"; arguments = "{}" }

abbrev said : String → List InternalContentPart → List InternalToolCall → InternalMessage
said role parts calls = record {
  role = role;
  content = parts;
  tool_calls = calls;
  tool_result = none;
}

abbrev conversation : List InternalMessage
conversation =
    said "system" (Parse.text_part "be kind" ∷ []) []
    ∷ said "user" (Parse.text_part "look" ∷ image_part "http://i" ∷ []) []
    ∷ said "assistant" [] (call ∷ [])
    ∷ record {
      role = "tool";
      content = Parse.text_part "sunny" ∷ [];
      tool_calls = [];
      tool_result = some (answer "call_1" "sunny");
    }
    ∷ []

abbrev tool : InternalTool
tool = record { type = "function"; name = "weather"; description = ""; parameters = object end }

abbrev request : InternalRequest
request = record {
  model = "gpt";
  messages = conversation;
  tools = tool ∷ [];
  tool_choice = some (record { type = "function"; function = "weather" });
  stream = true;
  max_tokens = some (pos 100);
  temperature = some (pos 700000);
  top_p = none;
  stop_words = "END" ∷ [];
}

abbrev chat_request : IsChatRequest request
chat_request = record {
  messages = (
    inr (refl, refl, inl ("be kind", refl, refl)),
    (
      inr (refl, refl, (inl ("look", refl), (inr ("http://i", refl), tt))),
      (inr (refl, refl, tt), (inl (refl, ("call_1", "sunny", refl, refl)), tt)),
    ),
  );
  tools = (refl, tt);
  tool_choice = inr refl;
  max_tokens = omega arith;
}

abbrev portable : IsPortable request
portable = record { tools = (refl, tt); tool_choice = inr (inr (inr refl)) }

chat_round_trip_example :
    (Build.internal_to_open_ai_chat request >>= λ body. Parse.open_ai_chat_to_internal body)
    ≡ ok request
chat_round_trip_example = open_ai_chat_to_internal-internal_to_open_ai_chat request chat_request

abbrev choice : InternalChoice
choice = record {
  index = pos 0;
  message = said "assistant" (Parse.text_part "it is sunny" ∷ []) (call ∷ []);
  finish_reason = "tool_calls";
}

abbrev response : InternalResponse
response = record {
  id = "r1";
  model = "gpt";
  choices = choice ∷ [];
  usage = record { prompt_tokens = pos 12; completion_tokens = pos 3 };
}

chat_answer_example :
    (Responses.internal_to_open_ai_response response >>= λ body.
    Responses.open_ai_response_to_internal body)
    ≡ ok response
chat_answer_example =
    open_ai_response_to_internal-internal_to_open_ai_response response
      ((inl ("it is sunny", refl, refl), refl), tt)

responses_lost_example :
    (back : InternalRequest) × ((Build.internal_to_responses request >>= λ body.
    Parse.open_ai_chat_to_internal body)
      ≡ ok back)
    × (back.model ≡ "gpt")
    × (back.messages ≡ [])
    × (back.max_tokens ≡ none)
responses_lost_example = open_ai_chat_to_internal-internal_to_responses request

-- The body that the Messages API is sent.
abbrev messages_body : Body
messages_body = elim (AnthropicBuild.internal_to_anthropic codec request) [
  | err message ↦ json null
  | ok body ↦ body
]

messages_settings_example :
    (back : InternalRequest) × (AnthropicParse.anthropic_to_internal codec messages_body ≡ ok back)
    × HasSameSettings back (bounded request)
messages_settings_example =
    anthropic_to_internal-internal_to_anthropic codec request messages_body portable
      (unfold AnthropicBuild.internal_to_anthropic in refl)

gemini_settings_example :
    (back : InternalRequest) × ((GeminiBuild.internal_to_gemini codec request >>= λ body.
    GeminiParse.gemini_to_internal codec random_hex body)
      ≡ ok back)
    × HasSameSettings back (told request)
gemini_settings_example = gemini_to_internal-internal_to_gemini codec random_hex request portable

messages_answer_example :
    (AnthropicResponses.internal_to_anthropic_response codec response >>= λ body.
    AnthropicResponses.anthropic_response_to_internal codec body)
    ≡ ok (kept response choice)
messages_answer_example =
    anthropic_response_to_internal-internal_to_anthropic_response codec response choice refl
      (record {
        content = (("it is sunny", refl), tt);
        tool_calls = ((refl, object end, refl, refl), tt);
        finish_reason = inr (inl refl);
      })

-- The members of the conversation's body.
abbrev request_fields : Fields
request_fields = Build.open_ai_request request

converts_example :
    is_ok (convert_request codec random_hex openai_chat anthropic (json (object request_fields)))
    ≡ readable codec (Parse.open_ai_request_of request_fields).messages
converts_example = is_ok-convert_request codec random_hex request_fields

-- Two deltas of a text.
abbrev text_event : String → Fields
text_event said =
    field "type" (text "content_block_delta")
      (field "delta" (object (field "type" (text "text_delta") (field "text" (text said) end))) end)

abbrev events : List Fields
events =
    field "type" (text "message_start") end
    ∷ text_event "good "
    ∷ field "type" (text "ping") end
    ∷ text_event "day"
    ∷ []

abbrev reverse_state : AnthropicReverseState
reverse_state = record { started = false; model = ""; msg_id = "m"; block_idx = 0; drawn = 0 }

same_words_example :
    words (reverse_stream random_hex reverse_state (convert_stream new_stream_state events))
    ≡ all_text events
same_words_example = reverse_stream-convert_stream random_hex events new_stream_state reverse_state

words_of_events : all_text events ≡ "good day"
unfolding all_text
words_of_events = refl

-- Two chunks of a text, and one that only counts.
abbrev text_part : String → Json
text_part said = object (field "text" (text said) end)

abbrev text_chunk : List String → Fields
text_chunk said =
    field "candidates"
      (array (
        cons
          (object
            (field "content" (object (field "parts" (array (items (map text_part said))) end)) end))
          nil))
      end

abbrev chunks : List Fields
chunks =
    text_chunk ("good" ∷ " " ∷ [])
    ∷ field "usageMetadata" (object (field "promptTokenCount" (number (pos 4000000)) end)) end
    ∷ text_chunk ("day" ∷ [])
    ∷ []

spoken_example :
    GeminiWords.all_content (convert_chunks codec random_hex "g" new_gemini_stream_state chunks).1
    ≡ GeminiWords.all_text chunks
spoken_example = convert_chunks-content codec random_hex "g" new_gemini_stream_state chunks

-- Two chunks of an upstream of the Chat Completions API.
abbrev said_chunks : List Fields
said_chunks =
    build_open_ai_chunk "i" "m" (field "content" (text "good ") end) ""
    ∷ build_open_ai_chunk "i" "m" (field "content" (text "day") end) "stop"
    ∷ []

said_chunks-AreChunks : All IsChunk said_chunks
unfolding decode_chunk decode_choices build_open_ai_chunk items read ◌*ℤ◌
said_chunks-AreChunks = (refl, (refl, tt))

reversed_example :
    GeminiWords.all_text (reverse_chunks codec new_gemini_reverse_state said_chunks)
    ≡ GeminiWords.all_content said_chunks
reversed_example =
    reverse_chunks-text codec said_chunks said_chunks-AreChunks new_gemini_reverse_state

text_of_chunks : GeminiWords.all_text chunks ≡ "good day"
unfolding GeminiWords.all_text items as_list read objects
text_of_chunks = refl

contents_of_chunks : GeminiWords.all_content said_chunks ≡ "good day"
unfolding GeminiWords.all_content build_open_ai_chunk items read as_list
contents_of_chunks = refl
