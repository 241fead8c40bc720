-- ===== src/Provider/Anthropic/StreamTrip.antt =====
-- internal/relay/provider/anthropic/streaming.go: events of the Messages API that are converted to
-- chunks of the Chat Completions API, and these to events again.
use cli_relay.Prelude.{
  String, true, false, Option, none, some, List, [], ◌∷◌, ◌++◌, ◌≡◌, refl, sym, subst, ap₂, ◌∙◌,
  if◌then◌else◌, ◌==◌, eq_iff, Bool-cases, inl, inr,
}
use cli_relay.Prelude.Int.{ℤ, pos, ◌*ℤ◌}
use cli_relay.Prelude.Text.{append}
use cli_relay.Prelude.Results.{ok}
use cli_relay.Json.{Json, null, object, text, Fields, end, field, number}
use cli_relay.Provider.Codec.{RandomHex}
use cli_relay.Provider.Values.{
  as_text, as_object, as_object?, as_list, read, decode_text, decode_int-number, items, elements,
}
use cli_relay.Provider.Chunks.{ChunkChoice, decode_chunk, decode_choices}
use cli_relay.Provider.Anthropic.Streams
use cli_relay.Provider.Anthropic.Reverse
use cli_relay.Provider.Anthropic.Words.{
  event_text, words, words-append, convert_choices-words, convert_choices-calls,
}

abbrev choice_with : Fields → Option String → ChunkChoice
choice_with delta reason = record { index = pos 0; delta = delta; finish_reason = reason }

decode_chunk-build :
    (id model : String) (delta : Fields)
    → decode_chunk (Streams.build_open_ai_chunk id model delta "")
      ≡ ok (record { model = model; choices = choice_with delta none ∷ []; usage = none })
unfolding decode_chunk decode_choices Streams.build_open_ai_chunk read items ◌*ℤ◌
decode_chunk-build id model delta = refl

decode_chunk-final :
    (s : Streams.AnthropicStreamState) (reason : String) (completion : ℤ)
    → decode_chunk (Streams.final_chunk s reason completion)
      ≡ ok (record {
        model = s.model;
        choices = choice_with end (some reason) ∷ [];
        usage = some (s.input_tokens, completion);
      })
unfolding decode_chunk decode_choices read items
decode_chunk-final s reason completion =
    rw
      (
        decode_int-number "chunk" (pos 0),
        decode_int-number "chunk" s.input_tokens,
        decode_int-number "chunk" completion,
      )
      refl

id-build :
    (id model : String) (delta : Fields)
    → decode_text "chunk" (read "id" (Streams.build_open_ai_chunk id model delta "")) ≡ ok id
unfolding read Streams.build_open_ai_chunk
id-build id model delta = refl

id-final :
    (s : Streams.AnthropicStreamState) (reason : String) (completion : ℤ)
    → decode_text "chunk" (read "id" (Streams.final_chunk s reason completion)) ≡ ok s.role_id
unfolding read
id-final s reason completion = refl

module _ (random_hex : RandomHex) where
  build-words :
      (id model : String) (delta : Fields) (r : Reverse.AnthropicReverseState)
      → as_list (read "tool_calls" delta) ≡ []
      → words (Reverse.reverse_chunk random_hex (Streams.build_open_ai_chunk id model delta "") r).1
        ≡ as_text (read "content" delta)
  unfolding Reverse.reverse_chunk
  build-words id model delta r e =
      rw (id-build id model delta, decode_chunk-build id model delta)
        (convert_choices-words random_hex none (choice_with delta none)
          (Reverse.take_names random_hex id model r) e)

  build-calls :
      (id model : String) (tc : Fields) (r : Reverse.AnthropicReverseState)
      → words
          (Reverse.reverse_chunk random_hex
            (Streams.build_open_ai_chunk id model (Streams.call_delta tc) "")
            r).1
        ≡ ""
  unfolding Reverse.reverse_chunk
  build-calls id model tc r =
      rw
        (
          id-build id model (Streams.call_delta tc),
          decode_chunk-build id model (Streams.call_delta tc),
        )
        (convert_choices-calls random_hex none (choice_with (Streams.call_delta tc) none)
          (Reverse.take_names random_hex id model r) (object tc) []
          (unfold as_list read items elements in refl))

  final-words :
      (s : Streams.AnthropicStreamState) (reason : String) (completion : ℤ)
      (r : Reverse.AnthropicReverseState)
      → words (Reverse.reverse_chunk random_hex (Streams.final_chunk s reason completion) r).1 ≡ ""
  unfolding Reverse.reverse_chunk
  final-words s reason completion r =
      rw (id-final s reason completion, decode_chunk-final s reason completion)
        (convert_choices-words random_hex (some (s.input_tokens, completion))
            (choice_with end (some reason)) (Reverse.take_names random_hex s.role_id s.model r)
            (unfold as_list read in refl)
          ∙ unfold read in refl)

  abbrev pub reverse_some : Option Fields → Reverse.AnthropicReverseState → Reverse.State
  reverse_some none r = (r, [])
  reverse_some (some chunk) r = Reverse.reverse_chunk random_hex chunk r

  -- What a delta says, in the words of `event_text`.
  abbrev delta_text : Fields → String
  delta_text delta =
      if as_text (read "type" delta) == "text_delta" then as_text (read "text" delta) else ""

  some_delta-words :
      (s : Streams.AnthropicStreamState) (event d : Fields) (r : Reverse.AnthropicReverseState)
      → words (reverse_some (Streams.delta_chunk s event (some d)) r).1 ≡ delta_text d
  some_delta-words s event d r = elim (Bool-cases (as_text (read "type" d) == "text_delta")) [
    | inl e ↦ rw e (
        build-words s.role_id s.model (field "content" (text (as_text (read "text" d))) end) r
          (unfold as_list read in refl)
        ∙ unfold read in refl)
    | inr e ↦ elim (Bool-cases (as_text (read "type" d) == "input_json_delta")) [
      | inl f ↦ rw (e, f) (build-calls s.role_id s.model _ r)
      | inr f ↦ rw (e, f) (unfold words in refl)
    ]
  ]

  delta-words :
      (s : Streams.AnthropicStreamState) (event : Fields) (v : Json)
      (r : Reverse.AnthropicReverseState)
      → words (reverse_some (Streams.delta_chunk s event (as_object? v)) r).1
        ≡ delta_text (as_object v)
  delta-words s event (object d) r = some_delta-words s event d r
  delta-words s event null r = unfold words read in refl
  delta-words s event (text t) r = unfold words read in refl
  delta-words s event (number x) r = unfold words read in refl
  delta-words s event (Json.boolean b) r = unfold words read in refl
  delta-words s event (Json.array vs) r = unfold words read in refl

  start-words :
      (s : Streams.AnthropicStreamState) (event : Fields) (r : Reverse.AnthropicReverseState)
      → words (reverse_some (Streams.block_start_chunk s event) r).1 ≡ ""
  unfolding Streams.block_start_chunk
  start-words s event r =
      elim (Bool-cases
        (as_text (read "type" (as_object (read "content_block" event))) == "tool_use")) [
          | inl e ↦ rw e (build-calls s.role_id s.model _ r)
          | inr e ↦ rw e (unfold words in refl)
        ]

  -- A text of another type than `expected`.
  other : (t a b : String) → (t == a) ≡ true → (a == b) ≡ false → (t == b) ≡ false
  other t a b e f = subst (λ (u : String). (u == b) ≡ false) (sym ((eq_iff t a).0 e)) f

  event-words :
      (s : Streams.AnthropicStreamState) (event : Fields) (r : Reverse.AnthropicReverseState)
      → words (reverse_some (Streams.convert_event s event).1 r).1 ≡ event_text event
  unfolding Streams.convert_event event_text
  event-words s event r =
      let t = as_text (read "type" event) in
      elim (Bool-cases (t == "message_start")) [
        | inl e ↦
            rw (e, other t "message_start" "content_block_delta" e refl)
              (build-words _ _ (field "role" (text "assistant") end) r (unfold as_list read in refl)
                ∙ unfold read in refl)
        | inr e ↦ elim (Bool-cases (t == "content_block_start")) [
          | inl f ↦
              rw (e, f, other t "content_block_start" "content_block_delta" f refl)
                (start-words s event r)
          | inr f ↦ elim (Bool-cases (t == "content_block_delta")) [
            | inl g ↦
                rw (e, f, g)
                  (unfold Streams.block_delta_chunk in delta-words s event (read "delta" event) r)
            | inr g ↦ elim (Bool-cases (t == "message_delta")) [
              | inl h ↦ rw (e, f, g, h) (unfold Streams.message_delta_chunk in final-words s _ _ r)
              | inr h ↦ rw (e, f, g, h) (unfold words in refl)
            ]
          ]
        ]
      ]

abbrev cons_chunk : Option Fields → List Fields → List Fields
cons_chunk none chunks = chunks
cons_chunk (some chunk) chunks = chunk ∷ chunks

-- The chunks of a whole stream of events.
unfoldable pub convert_stream : Streams.AnthropicStreamState → List Fields → List Fields
unfolding Streams.convert_event
convert_stream s [] = []
convert_stream s (event ∷ events) =
    let (left, chunk) = Streams.convert_event s event in
    cons_chunk chunk (convert_stream left events)

-- What the events say, one after the other.
unfoldable pub all_text : List Fields → String
unfolding append event_text
all_text [] = ""
all_text (event ∷ events) = append (event_text event) (all_text events)

module _ (random_hex : RandomHex) where
  -- The events of a whole stream of chunks.
  unfoldable pub reverse_stream : Reverse.AnthropicReverseState → List Fields → List Reverse.Event
  unfolding Reverse.reverse_chunk
  reverse_stream r [] = []
  reverse_stream r (chunk ∷ chunks) =
      let (left, events) = Reverse.reverse_chunk random_hex chunk r in
      events ++ reverse_stream left chunks

  words-cons :
      (r : Reverse.AnthropicReverseState) (o : Option Fields) (chunks : List Fields)
      → words (reverse_stream r (cons_chunk o chunks))
        ≡ append
            (words (reverse_some random_hex o r).1)
            (words (reverse_stream (reverse_some random_hex o r).0 chunks))
  unfolding reverse_stream
  words-cons r none chunks = unfold words append in refl
  words-cons r (some chunk) chunks = words-append (Reverse.reverse_chunk random_hex chunk r).1 _

  -- A stream of the Messages API that is converted to chunks of the Chat Completions API, and these
  -- back to events, says the same text, whatever its events are and whatever state the converters
  -- are in.
  pub reverse_stream-convert_stream :
      (events : List Fields) (s : Streams.AnthropicStreamState) (r : Reverse.AnthropicReverseState)
      → words (reverse_stream r (convert_stream s events)) ≡ all_text events
  unfolding convert_stream all_text
  reverse_stream-convert_stream [] s r = unfold reverse_stream words in refl
  reverse_stream-convert_stream (event ∷ events) s r =
      let (left, chunk) = Streams.convert_event s event in
      words-cons r chunk (convert_stream left events)
      ∙ ap₂ append (event-words random_hex s event r)
          (reverse_stream-convert_stream events left (reverse_some random_hex chunk r).0)
