-- ===== src/Streaming/Forward.antt =====
-- internal/relay/streaming.go: `streamTracker`, and `streamAndForward`, which reads the lines of the
-- upstream's stream, converts them twice, sends them to the client and reads the usage of what was
-- sent. The scanner gives the lines and the error that ends them; `accepts k` tells whether the k-th
-- `Send` succeeds.
use cli_relay.Prelude.{
  ℕ, suc, String, Bool, true, false, Option, none, some, List, [], ◌∷◌, ◌++◌, if◌then◌else◌, ◌==◌,
  ◌||◌, ltb,
}
use cli_relay.Prelude.Int.{ℤ, pos, ltb_ℤ}
use cli_relay.Prelude.Text.{append, trim_space, byte_length, split_blocks}
use cli_relay.Provider.Chunks.{data_of}

-- Under a mutex, which only this goroutine takes while it runs.
pub record StreamTracker : Type 0 where
  pub prompt_tokens : ℤ
  pub completion_tokens : ℤ

pub record StreamResult : Type 0 where
  pub prompt_tokens : ℤ
  pub completion_tokens : ℤ
  pub failed : Option String

-- A converter with its state; the stage is left out where the function is nil.
abbrev pub Converter : Type 0 → Type 0
Converter State = Option (State → String → State × Option String)

abbrev pub new_stream_tracker : StreamTracker
new_stream_tracker = record { prompt_tokens = pos 0; completion_tokens = pos 0 }

abbrev pub closed_pipe : StreamResult
closed_pipe = record {
  prompt_tokens = pos 0;
  completion_tokens = pos 0;
  failed = some "io: read/write on closed pipe";
}

abbrev sse_max_buf_size : ℕ
sse_max_buf_size = 10485760

module _ (parse_stream_usage : String → ℤ × ℤ) where
  -- Counts that are not positive are not kept.
  unfoldable pub track_chunk : String → StreamTracker → StreamTracker
  unfolding byte_length
  track_chunk data_line t =
      let (prompt, completion) = parse_stream_usage data_line in
      if data_line == "" || ltb sse_max_buf_size (byte_length data_line)
      then t
      else if ltb_ℤ (pos 0) prompt || ltb_ℤ (pos 0) completion
      then record { prompt_tokens = prompt; completion_tokens = completion }
      else t

  abbrev pub track_data : Option String → StreamTracker → StreamTracker
  track_data none t = t
  track_data (some written) t = track_chunk written t

  abbrev pub is_end : Option String → Bool
  is_end none = false
  is_end (some written) = written == "[DONE]"

  -- The loop over the events of what was sent.
  unfoldable pub track_segments : List String → StreamTracker → StreamTracker
  unfolding track_chunk data_of
  track_segments [] t = t
  track_segments (seg ∷ segs) t =
      let written = data_of seg in
      let rest = track_segments segs (track_data written t) in if is_end written then t else rest

  unfoldable pub track_sent : String → StreamTracker → StreamTracker
  unfolding track_segments split_blocks
  track_sent forward_line t = track_segments (split_blocks forward_line) t

abbrev pub convert :
    {State : Type 0} → Converter State → State → String → String → State × Option String
convert none s line passed = (s, some passed)
convert (some f) s line passed = f s line

-- The variables of the loop, with the events that were sent.
pub record Forwarding (In Out : Type 0) : Type 0 where
  pub input : In
  pub output : Out
  pub tracker : StreamTracker
  pub sends : ℕ
  pub sent : List String

-- A call of `Send`.
abbrev pub send :
    {In Out : Type 0} → (ℕ → Bool) → String → Forwarding In Out → Bool × Forwarding In Out
send accepts event f = (
  accepts f.sends,
  record f { sends = suc f.sends; sent = if accepts f.sends then f.sent ++ event ∷ [] else f.sent },
)

module _ {In Out : Type 0} (input_convert : Converter In) (output_convert : Converter Out)
    (parse_stream_usage : String → ℤ × ℤ) (accepts : ℕ → Bool) where
  -- What a line becomes, where a converter does not drop it.
  abbrev pub second_stage : Option String → Forwarding In Out → Option String × Forwarding In Out
  second_stage none f = (none, f)
  second_stage (some forward_line) f =
      let (output, converted) = convert output_convert f.output forward_line forward_line in
      (converted, record f { output = output })

  unfoldable pub convert_stages : String → Forwarding In Out → Option String × Forwarding In Out
  unfolding append trim_space
  convert_stages line f =
      let (input, converted) =
        convert input_convert f.input line (append (trim_space line) "\n\n") in
      second_stage converted (record f { input = input })

  abbrev pub track_if_sent : String → Bool × Forwarding In Out → Bool × Forwarding In Out
  track_if_sent event (false, f) = (false, f)
  track_if_sent event (true, f) =
      (true, record f { tracker = track_sent parse_stream_usage event f.tracker })

  abbrev pub forward_event : Option String × Forwarding In Out → Bool × Forwarding In Out
  forward_event (none, f) = (true, f)
  forward_event (some event, f) = track_if_sent event (send accepts event f)

  -- One round of the loop; it is over where a `Send` failed.
  unfoldable pub forward_line : String → Forwarding In Out → Bool × Forwarding In Out
  unfolding convert_stages track_sent
  forward_line line f =
      if trim_space line == "" then send accepts "\n" f else forward_event (convert_stages line f)

  abbrev pub end_of : Option String → Forwarding In Out → StreamResult × Forwarding In Out
  end_of (some e) f =
      (record { prompt_tokens = pos 0; completion_tokens = pos 0; failed = some e }, f)
  end_of none f = (
    record {
      prompt_tokens = f.tracker.prompt_tokens;
      completion_tokens = f.tracker.completion_tokens;
      failed = none;
    },
    (send accepts "data: [DONE]\n\n" f).1,
  )

  unfoldable pub forward_lines :
      List String → Option String → Forwarding In Out → StreamResult × Forwarding In Out
  unfolding forward_line
  forward_lines [] scan_error f = end_of scan_error f
  forward_lines (line ∷ lines) scan_error f =
      let (sent, next) = forward_line line f in
      let rest = forward_lines lines scan_error next in if sent then rest else (closed_pipe, next)

  unfoldable pub stream_and_forward :
      In → Out → List String → Option String → StreamResult × Forwarding In Out
  unfolding forward_lines
  stream_and_forward input output lines scan_error = forward_lines lines scan_error (record {
    input = input;
    output = output;
    tracker = new_stream_tracker;
    sends = 0;
    sent = [];
  })
