-- ===== src/Streaming/Usage.antt =====
-- internal/relay/streaming.go: the usage that a forwarded stream is charged by.
use cli_relay.Prelude.{ℕ, String, Bool, ◌≡◌}
use cli_relay.Prelude.Int.{ℤ, pos}
use cli_relay.Streaming.Forward
use cli_relay.Streaming.Readings.{all_readings, last_or, track_all}

module _ {In Out : Type 0} (parse_stream_usage : String → ℤ × ℤ) (accepts : ℕ → Bool) where
  -- The tracker holds the usage of what was sent.
  abbrev pub IsTracked : Forward.Forwarding In Out → Type 0
  IsTracked f = f.tracker ≡ track_all parse_stream_usage f.sent Forward.new_stream_tracker

  module _ (input_convert : Forward.Converter In) (output_convert : Forward.Converter Out) where
    -- What a run that is over reports is the last reading of what it sent.
    abbrev pub IsBilled : Forward.StreamResult × Forward.Forwarding In Out → Type 0
    IsBilled run =
        (run.0.prompt_tokens, run.0.completion_tokens)
        ≡ last_or (pos 0, pos 0) (all_readings parse_stream_usage run.1.sent)
