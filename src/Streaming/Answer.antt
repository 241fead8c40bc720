-- ===== src/Streaming/Answer.antt =====
-- internal/relay/stream_converter.go: the answer that a stream of texts is gathered into, as
-- internal/relay/provider/openai/response_convert.go reads it.
use cli_relay.Prelude.{
  String, none, [], ◌∷◌, ◌≡◌, refl, eq_iff, ap₂, ◌∙◌, All, arith, if◌then◌else◌, ◌==◌,
}
use cli_relay.Prelude.Int.{pos}
use cli_relay.Prelude.Text.{append, split_lines}
use cli_relay.Prelude.Results.{ok}
use cli_relay.Json.{object, Fields}
use cli_relay.Provider.Codec.{Codec}
use cli_relay.Provider.Internal.{InternalChoice}
use cli_relay.Provider.OpenAi.Parse.{text_content}
use cli_relay.Provider.OpenAi.Responses
use cli_relay.Provider.Values
use cli_relay.Streaming.Gather.{Gathered, gathered_answer, stream_to_non_stream, nothing}
use cli_relay.Streaming.Texts.{called, chunks, all_spoken, last_reason, lines-Moved}

abbrev pub or_stop : String → String
or_stop reason = if reason == "" then "stop" else reason

-- The choice of an answer that says a text.
abbrev pub says : String → String → InternalChoice
says words reason = record {
  index = pos 0;
  message = record {
    role = "assistant";
    content = text_content words;
    tool_calls = [];
    tool_result = none;
  };
  finish_reason = or_stop reason;
}

choices-gathered :
    (g : Gathered)
    → g.tool_calls ≡ []
    → (Responses.open_ai_response_of (gathered_answer g)).choices
      ≡ says g.content g.finish_reason ∷ []
unfolding Responses.open_ai_response_of gathered_answer Responses.parse_open_ai_choice
choices-gathered g e = rw e (
    simp Values.fields
      (unfold Values.read Values.as_list Values.objects Responses.parse_response_content in refl))

kept_reason : (reason : String) → (if reason == "" then "" else reason) ≡ reason
kept_reason reason = ground (arith, eq_iff reason "")

-- A stream whose events call no tool is gathered, without an error, into an answer with one choice:
-- the texts of the events in their order, and the last of their reasons, or `stop`.
pub stream_to_non_stream-texts :
    (codec : Codec) (sse_body : String)
    → All (λ chunk. called chunk ≡ []) (chunks codec (split_lines sse_body))
    → let events = chunks codec (split_lines sse_body) in
      (answer : Fields) × (stream_to_non_stream codec sse_body ≡ ok (object answer))
      × ((Responses.open_ai_response_of answer).choices
          ≡ says (all_spoken events) (last_reason events) ∷ [])
unfolding stream_to_non_stream
stream_to_non_stream-texts codec sse_body all =
    let (g, e, m) = lines-Moved codec (split_lines sse_body) nothing all in
    (
      gathered_answer g,
      rw e refl,
      choices-gathered g (m.1)
          ∙ ap₂ (λ words reason. says words reason ∷ []) (m.0 ∙ unfold append in refl)
              (m.2 ∙ kept_reason (last_reason (chunks codec (split_lines sse_body)))),
    )
