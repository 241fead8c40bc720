-- ===== src/Streaming/Tests.antt =====
-- internal/relay: a stream of two events.
use cli_relay.Prelude.{
  ℕ, Bool, true, List, [], ◌∷◌, String, none, some, ◌≡◌, refl, arith, if◌then◌else◌, ◌==◌,
}
use cli_relay.Prelude.Text.{split_lines, append, take_text, drop_text, length_text}
use cli_relay.Prelude.Results.{ok}
use cli_relay.Json.{Json, null, text, array, object, nil, cons, Fields, end, field}
use cli_relay.Provider.Codec.{Codec}
use cli_relay.Provider.OpenAi.Responses.{open_ai_response_of}
use cli_relay.Prelude.Int.{ℤ, pos}
use cli_relay.Streaming.Forward.{Converter, stream_and_forward}
use cli_relay.Streaming.Reader as reading
use cli_relay.Streaming.Reader.{
  new_sse_stream_reader, done, idle, sending, finished, Stream, fresh, begin, deliver, finish,
  read_step, Reachable, start, next,
}
use cli_relay.Streaming.Reader.Order.{IsSound, reachable-IsSound}
use cli_relay.Streaming.Reader.Drain.{read_all, read_all-accepted}
use cli_relay.Streaming.Gather.{stream_to_non_stream, line_chunk}
use cli_relay.Provider.Values.{as_list, objects, read}
use cli_relay.Streaming.Texts.{chunks, all_spoken, last_reason}
use cli_relay.Streaming.Answer.{says, stream_to_non_stream-texts}

abbrev event : String → Json → Json
event words reason = object (
    field "choices"
      (array (
        cons
          (object (
            field "delta" (object (field "content" (text words) end))
              (field "finish_reason" reason end)))
          nil))
      end)

-- Events by their number.
abbrev codec : Codec
codec = record {
  marshal = λ v. "";
  unmarshal = λ s.
      if s == "1"
      then some (event "good " null)
      else if s == "2"
      then some (event "day" (text "length"))
      else none;
}

abbrev stream : String
stream = "data: 1\n\ndata: 2\n: ping\ndata: [DONE]\n"

gathered_example :
    let events = chunks codec (split_lines stream) in
    (answer : Fields) × (stream_to_non_stream codec stream ≡ ok (object answer))
    × ((open_ai_response_of answer).choices ≡ says (all_spoken events) (last_reason events) ∷ [])
gathered_example =
    stream_to_non_stream-texts codec stream
      (unfold chunks split_lines line_chunk as_list objects read in (refl, (refl, tt)))

words_of_stream : all_spoken (chunks codec (split_lines stream)) ≡ "good day"
unfolding all_spoken chunks split_lines line_chunk as_list read
words_of_stream = refl

-- An event is sent, one character of it is read, and the sender finishes.
abbrev sent_one : Stream
sent_one = record fresh { sender = sending "hi" }

abbrev delivered_one : Stream
delivered_one = record fresh {
  reader = record new_sse_stream_reader { event_ch = some "hi" };
  accepted = "hi";
}

abbrev half_read : Stream
half_read = record {
  reader = record new_sse_stream_reader { current = "i" };
  sender = idle;
  accepted = "hi";
  received = "h";
}

abbrev over : Stream
over = record half_read { reader = done half_read.reader; sender = finished }

half_read-Reachable : Reachable half_read
unfolding append take_text drop_text reading.read
half_read-Reachable =
    next
      (next {t = delivered_one} (next {t = sent_one} start (begin "hi" refl refl))
        (deliver "hi" refl refl))
      (read_step 1 "h" (record new_sse_stream_reader { current = "i" }) refl)

abbrev over-Reachable : Reachable over
over-Reachable = next half_read-Reachable (finish refl)

order_example : IsSound over
order_example = reachable-IsSound over over-Reachable

drain_example :
    (rest : String) × (read_all 9 4 over.reader ≡ some rest) × (append over.received rest ≡ "hi")
drain_example =
    read_all-accepted over 4 9 over-Reachable refl (omega arith) (unfold length_text in omega arith)

-- A stream of two lines whose second has the usage.
abbrev usage_of : String → ℤ × ℤ
usage_of = λ s. if s == "2" then (pos 7, pos 5) else (pos 0, pos 0)

abbrev unconverted : Converter (Unit {0})
unconverted = none

abbrev two_lines : List String
two_lines = "data: 1" ∷ "" ∷ "data: 2" ∷ []

abbrev always : ℕ → Bool
always = λ k. true

usage_is_read :
    (stream_and_forward unconverted unconverted usage_of always tt tt two_lines
      none).0.prompt_tokens
    ≡ pos 7
unfolding stream_and_forward append
usage_is_read = refl
