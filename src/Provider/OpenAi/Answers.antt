-- ===== src/Provider/OpenAi/Answers.antt =====
-- internal/relay/provider/openai/response_convert.go: an answer that is written for the Chat
-- Completions API and read back.
use cli_relay.Prelude.{none, some, List, [], ◌∷◌, map, ◌≡◌, refl, ap, ap₂, All, sym}
use cli_relay.Prelude.Results.{ok, ◌>>=◌}
use cli_relay.Json.{Json, null, text, array, object}
use cli_relay.Provider.Internal.{
  InternalMessage, InternalContentPart, InternalToolCall, InternalResponse, InternalChoice,
  InternalUsage, response_ext,
}
use cli_relay.Provider.Values
use cli_relay.Provider.OpenAi.Parse
use cli_relay.Provider.OpenAi.Build
use cli_relay.Provider.OpenAi.Responses
use cli_relay.Provider.OpenAi.Messages.{
  IsContent, parse-open_ai_content, tool_calls, as_list-some_array, message_ext,
}

-- A choice that the Chat Completions API can express.
abbrev pub IsAnswered : InternalChoice → Type 0
IsAnswered ch = IsContent ch.message.content × (ch.message.tool_result ≡ none)

-- The two copies of the function that reads a content are one.
parse_response_content-eq :
    (v : Json) → Responses.parse_response_content v ≡ Parse.parse_open_ai_content v
unfolding Responses.parse_response_content Parse.parse_open_ai_content
parse_response_content-eq (text s) = refl
parse_response_content-eq (array vs) = refl
parse_response_content-eq null = refl
parse_response_content-eq (object fs) = refl
parse_response_content-eq (Json.boolean b) = refl
parse_response_content-eq (Json.number x) = refl

content-written :
    (calls : List InternalToolCall) (parts : List InternalContentPart)
    → IsContent parts
    → Responses.parse_response_content
        (Values.or_json (Responses.response_content calls parts) null)
      ≡ parts
content-written [] [] h = unfold Responses.parse_response_content in refl
content-written (call ∷ calls) [] h = unfold Responses.parse_response_content in refl
content-written [] (p ∷ ps) h =
    rw (parse_response_content-eq (Build.open_ai_content p ps)) (parse-open_ai_content p ps h)
content-written (call ∷ calls) (p ∷ ps) h =
    rw (parse_response_content-eq (Build.open_ai_content p ps)) (parse-open_ai_content p ps h)

message-written :
    (im : InternalMessage)
    → IsContent im.content
    → im.tool_result ≡ none
    → Responses.parse_response_message (some (Responses.build_response_message im)) ≡ im
unfolding Responses.build_response_message
message-written im h e =
    message_ext (simp Values.fields)
      (simp Values.fields (content-written im.tool_calls im.content h))
      (simp (Values.fields, as_list-some_array) (tool_calls 0 im.tool_calls)) (sym e)

choice-written :
    (ch : InternalChoice)
    → IsAnswered ch
    → Responses.parse_open_ai_choice (Responses.build_open_ai_choice ch) ≡ ch
unfolding Responses.parse_open_ai_choice Responses.build_open_ai_choice Values.read
choice-written ch (h, e) = λ i. record {
  index = Values.to_int-of_int ch.index i;
  message = message-written ch.message h e i;
  finish_reason = ch.finish_reason;
}

choices-written :
    (chs : List InternalChoice)
    → All IsAnswered chs
    → map Responses.parse_open_ai_choice (map Responses.build_open_ai_choice chs) ≡ chs
choices-written [] h = refl
choices-written (ch ∷ chs) (hc, h) =
    ap₂ (λ a rest. a ∷ rest) (choice-written ch hc) (choices-written chs h)

usage-written :
    (usage : InternalUsage)
    → Responses.parse_open_ai_usage (Responses.build_open_ai_usage usage) ≡ usage
unfolding Responses.build_open_ai_usage Values.read
usage-written usage = λ i. record {
  prompt_tokens = Values.to_int-of_int usage.prompt_tokens i;
  completion_tokens = Values.to_int-of_int usage.completion_tokens i;
}

response-written :
    (resp : InternalResponse)
    → All IsAnswered resp.choices
    → Responses.open_ai_response_of (Responses.open_ai_response resp) ≡ resp
unfolding Responses.open_ai_response_of Responses.open_ai_response
response-written resp h =
    response_ext (simp Values.fields) (simp Values.fields)
      (simp Values.fields (
        rw (Values.as_list-items, Values.objects-map Responses.build_open_ai_choice)
          (choices-written resp.choices h)))
      (simp Values.fields (usage-written resp.usage))

-- An answer that the Chat Completions API can express is read back from the body that is written
-- for it, with every choice, tool call and count.
pub open_ai_response_to_internal-internal_to_open_ai_response :
    (resp : InternalResponse)
    → All IsAnswered resp.choices
    → (Responses.internal_to_open_ai_response resp >>= λ body.
        Responses.open_ai_response_to_internal body)
      ≡ ok resp
unfolding Responses.internal_to_open_ai_response Responses.open_ai_response_to_internal
open_ai_response_to_internal-internal_to_open_ai_response resp h =
    ap (λ r. ok r) (response-written resp h)
