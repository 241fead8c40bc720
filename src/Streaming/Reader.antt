-- ===== src/Streaming/Reader.antt =====
-- internal/relay/sse_reader.go: `SSEStreamReader`, which one goroutine sends events to and the server
-- reads from. The channel of events holds one. `Send` tests the flag under its mutex and then waits
-- in a select, so another step may come in between.
pub mod Order
pub mod Drain
use cli_relay.Prelude.{ℕ, String, Bool, true, false, Option, none, some, if◌then◌else◌, ◌==◌, ◌≡◌}
use cli_relay.Prelude.Text.{append, take_text, drop_text}

-- `event_ch` is what the channel holds, `is_done` whether `Done` has closed it.
pub record SseStreamReader : Type 0 where
  pub event_ch : Option String
  pub is_done : Bool
  pub closed : Bool
  pub current : String

abbrev pub new_sse_stream_reader : SseStreamReader
new_sse_stream_reader = record { event_ch = none; is_done = false; closed = false; current = "" }

-- What a call of `Read` comes to: it waits, it tells the end, or it copies some of the current event.
pub data ReadResult : Type 0 where
  waits : ReadResult
  eof : ReadResult
  copied : String → SseStreamReader → ReadResult

abbrev copy_current : ℕ → SseStreamReader → ReadResult
copy_current size r =
    copied (take_text size r.current) (record r { current = drop_text size r.current })

abbrev receive : Option String → ℕ → SseStreamReader → ReadResult
receive none size r = if r.is_done then eof else waits
receive (some event) size r = copy_current size (record r { event_ch = none; current = event })

-- `Read` into a buffer of `size` bytes.
unfoldable pub read : ℕ → SseStreamReader → ReadResult
unfolding take_text drop_text
read size r = if r.current == "" then receive r.event_ch size r else copy_current size r

abbrev pub close : SseStreamReader → SseStreamReader
close r = record r { closed = true }

abbrev pub done : SseStreamReader → SseStreamReader
done r = record r { is_done = true }

-- The sender is between two calls, in the select of `Send`, or has called `Done`.
pub data Sender : Type 0 where
  idle : Sender
  sending : String → Sender
  finished : Sender

-- The reader and its sender, with the texts that were accepted and that were read.
pub record Stream : Type 0 where
  pub reader : SseStreamReader
  pub sender : Sender
  pub accepted : String
  pub received : String

abbrev pub fresh : Stream
fresh = record { reader = new_sse_stream_reader; sender = idle; accepted = ""; received = "" }

-- The text that is accepted and not read.
abbrev pub held : Option String → String
held none = ""
held (some event) = event

unfoldable pub pending : SseStreamReader → String
unfolding append
pending r = append r.current (held r.event_ch)

abbrev pub with_reader : Stream → SseStreamReader → Stream
with_reader s r = record s { reader = r }

-- A step of either goroutine. `Send` returns false in `refuse` and `give_up`.
pub data Step : Stream → Stream → Type 0 where
  begin :
      {s : Stream} (event : String)
      → s.sender ≡ idle
      → s.reader.closed ≡ false
      → Step s (record s { sender = sending event })
  refuse : {s : Stream} (event : String) → s.sender ≡ idle → s.reader.closed ≡ true → Step s s
  deliver :
      {s : Stream} (event : String)
      → s.sender ≡ sending event
      → s.reader.event_ch ≡ none
      → Step s (record s {
        reader = record s.reader { event_ch = some event };
        sender = idle;
        accepted = append s.accepted event;
      })
  give_up :
      {s : Stream} (event : String)
      → s.sender ≡ sending event
      → s.reader.closed ≡ true
      → Step s (record s { sender = idle })
  finish :
      {s : Stream}
      → s.sender ≡ idle
      → Step s (record s { reader = done s.reader; sender = finished })
  close_step : {s : Stream} → Step s (with_reader s (close s.reader))
  read_step :
      {s : Stream} (size : ℕ) (chunk : String) (r : SseStreamReader)
      → read size s.reader ≡ copied chunk r
      → Step s (record s { reader = r; received = append s.received chunk })

pub data Reachable : Stream → Type 0 where
  start : Reachable fresh
  next : {s t : Stream} → Reachable s → Step s t → Reachable t
