-- ===== src/Streaming/Readings.antt =====
-- internal/relay/streaming.go: the counts that `streamTracker` holds, and the texts they are read off.
use cli_relay.Prelude.{
  String, Option, none, some, List, [], ◌∷◌, ◌++◌, ◌≡◌, refl, sym, ap, ◌∙◌, ◌==◌, ◌||◌, ltb,
  if◌then◌else◌, Bool-cases, inl, inr,
}
use cli_relay.Prelude.Int.{ℤ, pos, ltb_ℤ}
use cli_relay.Prelude.Text.{split_blocks, byte_length}
use cli_relay.Provider.Chunks.{data_of}
use cli_relay.Streaming.Forward

-- The texts behind `data: ` of the events in one text, up to the one that ends the stream.
abbrev cons_payload : Option String → List String → List String
cons_payload none rest = rest
cons_payload (some payload) rest = if payload == "[DONE]" then [] else payload ∷ rest

unfoldable pub payloads : List String → List String
unfolding data_of
payloads [] = []
payloads (seg ∷ segs) = cons_payload (data_of seg) (payloads segs)

-- The last of the readings, or what was there before.
unfoldable pub last_or : ℤ × ℤ → List (ℤ × ℤ) → ℤ × ℤ
last_or before [] = before
last_or before (reading ∷ readings) = last_or reading readings

last_or-append :
    (before : ℤ × ℤ) (a b : List (ℤ × ℤ)) → last_or before (a ++ b) ≡ last_or (last_or before a) b
unfolding last_or
last_or-append before [] b = refl
last_or-append before (reading ∷ a) b = last_or-append reading a b

-- A reading is kept if one of its two counts is positive.
abbrev cons_positive : ℤ × ℤ → List (ℤ × ℤ) → List (ℤ × ℤ)
cons_positive (prompt, completion) rest =
    if ltb_ℤ (pos 0) prompt || ltb_ℤ (pos 0) completion then (prompt, completion) ∷ rest else rest

abbrev pub counts : Forward.StreamTracker → ℤ × ℤ
counts t = (t.prompt_tokens, t.completion_tokens)

module _ (parse_stream_usage : String → ℤ × ℤ) where
  -- What is read off the texts that are neither empty nor longer than ten megabytes.
  unfoldable pub readings : List String → List (ℤ × ℤ)
  unfolding byte_length
  readings [] = []
  readings (payload ∷ rest) =
      let others = readings rest in
      if payload == "" || ltb 10485760 (byte_length payload)
      then others
      else cons_positive (parse_stream_usage payload) others

  -- The readings of all that was sent, in order.
  unfoldable pub all_readings : List String → List (ℤ × ℤ)
  unfolding readings payloads split_blocks
  all_readings [] = []
  all_readings (event ∷ events) = readings (payloads (split_blocks event)) ++ all_readings events

  chunk-counts :
      (payload : String) (rest : List String) (t : Forward.StreamTracker)
      → last_or (counts (Forward.track_chunk parse_stream_usage payload t)) (readings rest)
        ≡ last_or (counts t) (readings (payload ∷ rest))
  unfolding Forward.track_chunk readings last_or
  chunk-counts payload rest t =
      let reading = parse_stream_usage payload in
      elim (Bool-cases (payload == "" || ltb 10485760 (byte_length payload))) [
        | inl e ↦ rw e refl
        | inr e ↦ elim (Bool-cases (ltb_ℤ (pos 0) reading.0 || ltb_ℤ (pos 0) reading.1)) [
          | inl k ↦ rw (e, k) refl
          | inr k ↦ rw (e, k) refl
        ]
      ]

  data-counts :
      (written : Option String) (segs : List String) (t : Forward.StreamTracker)
      → ((u : Forward.StreamTracker)
          → counts (Forward.track_segments parse_stream_usage segs u)
            ≡ last_or (counts u) (readings (payloads segs)))
      → counts (
          if Forward.is_end parse_stream_usage written
          then t
          else Forward.track_segments parse_stream_usage segs
              (Forward.track_data parse_stream_usage written t))
        ≡ last_or (counts t) (readings (cons_payload written (payloads segs)))
  data-counts none segs t ih = ih t
  data-counts (some payload) segs t ih = elim (Bool-cases (payload == "[DONE]")) [
    | inl e ↦ rw e (unfold last_or readings in refl)
    | inr e ↦ rw e (
        ih (Forward.track_chunk parse_stream_usage payload t)
        ∙ chunk-counts payload (payloads segs) t)
  ]

  -- The tracker that has read some events holds the last reading.
  segments-counts :
      (segs : List String) (t : Forward.StreamTracker)
      → counts (Forward.track_segments parse_stream_usage segs t)
        ≡ last_or (counts t) (readings (payloads segs))
  unfolding Forward.track_segments payloads
  segments-counts [] t = unfold last_or readings in refl
  segments-counts (seg ∷ segs) t = data-counts (data_of seg) segs t (segments-counts segs)

  -- The usage of a list of events, read one after the other.
  unfoldable pub track_all : List String → Forward.StreamTracker → Forward.StreamTracker
  unfolding Forward.track_sent
  track_all [] t = t
  track_all (event ∷ events) t = track_all events (Forward.track_sent parse_stream_usage event t)

  pub track_all-snoc :
      (events : List String) (event : String) (t : Forward.StreamTracker)
      → track_all (events ++ event ∷ []) t
        ≡ Forward.track_sent parse_stream_usage event (track_all events t)
  unfolding track_all
  track_all-snoc [] event t = refl
  track_all-snoc (e ∷ events) event t =
      track_all-snoc events event (Forward.track_sent parse_stream_usage e t)

  -- A blank line and the end of the stream have no usage.
  pub track-blank : (t : Forward.StreamTracker) → Forward.track_sent parse_stream_usage "\n" t ≡ t
  unfolding Forward.track_sent Forward.track_segments split_blocks data_of
  track-blank t = refl

  pub track-end :
      (t : Forward.StreamTracker) → Forward.track_sent parse_stream_usage "data: [DONE]\n\n" t ≡ t
  unfolding Forward.track_sent Forward.track_segments split_blocks data_of
  track-end t = refl

  pub track_all-counts :
      (events : List String) (t : Forward.StreamTracker)
      → counts (track_all events t) ≡ last_or (counts t) (all_readings events)
  unfolding track_all all_readings Forward.track_sent
  track_all-counts [] t = unfold last_or in refl
  track_all-counts (event ∷ events) t =
      track_all-counts events (Forward.track_sent parse_stream_usage event t)
      ∙ ap (λ before. last_or before (all_readings events)) (segments-counts (split_blocks event) t)
      ∙ sym (
          last_or-append (counts t) (readings (payloads (split_blocks event)))
            (all_readings events))
