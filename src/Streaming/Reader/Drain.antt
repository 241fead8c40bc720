-- ===== src/Streaming/Reader/Drain.antt =====
-- internal/relay/sse_reader.go: reading to the end of a stream whose sender has finished.
use cli_relay.Prelude.{
  ℕ, zero, suc, ◌+◌, ◌<◌, ◌≤◌, String, true, false, Option, none, some, ◌≡◌, ◌⊎◌, refl, ap, ◌∙◌,
  arith, ◌==◌, eq_iff, Bool-cases, Option-cases, inl, inr,
}
use cli_relay.Prelude.Text.{append, take_text, drop_text, length_text, append_empty}
use cli_relay.Streaming.Reader.{
  SseStreamReader, ReadResult, waits, eof, copied, read, pending, Stream, Reachable,
}
use cli_relay.Streaming.Reader.Order.{pending-read, reachable-IsSound}

abbrev prepend : String → Option String → Option String
prepend chunk none = none
prepend chunk (some rest) = some (append chunk rest)

abbrev after_read : (SseStreamReader → Option String) → ReadResult → Option String
after_read more waits = none
after_read more eof = some ""
after_read more (copied chunk r) = prepend chunk (more r)

-- Reading into a buffer of `size` bytes, until the end is told, `fuel` times at most.
unfoldable pub read_all : ℕ → ℕ → SseStreamReader → Option String
unfolding read append
read_all zero size r = none
read_all (suc fuel) size r = after_read (read_all fuel size) (read size r)

abbrev held_length : Option String → ℕ
held_length none = 0
held_length (some event) = suc (length_text event)

-- The reads that are left, at most.
abbrev pub left_reads : SseStreamReader → ℕ
left_reads r = length_text r.current + held_length r.event_ch

length-drop : (n : ℕ) (s : String) → length_text (drop_text n s) ≤ length_text s
unfolding length_text drop_text
length-drop zero s = omega arith
length-drop (suc n) String.[] = omega arith
length-drop (suc n) (String.◌∷◌ c s) = omega (arith, length-drop n s)

length-drop-lt :
    (n : ℕ) (s : String) → 0 < n → (s == "") ≡ false → length_text (drop_text n s) < length_text s
unfolding length_text drop_text
length-drop-lt (suc n) (String.◌∷◌ c s) h e = omega (arith, length-drop n s)
length-drop-lt (suc n) String.[] h e = cc
length-drop-lt zero s h e = omega arith

ended : (r : SseStreamReader) → (r.current == "") ≡ true → r.event_ch ≡ none → pending r ≡ ""
unfolding pending
ended r f g = rw ((eq_iff r.current "").0 f, g) (append_empty "")

module _ (size : ℕ) (big : 0 < size) where
  -- A reader whose channel is closed tells the end or copies, and comes closer to the end.
  read-cases :
      (r : SseStreamReader)
      → r.is_done ≡ true
      → ((read size r ≡ eof) × (pending r ≡ ""))
        ⊎ ((chunk : String) × (left : SseStreamReader) × (read size r ≡ copied chunk left)
            × (left_reads left < left_reads r))
  unfolding read
  read-cases r d = elim (Bool-cases (r.current == "")) [
    | inr f ↦ inr (
      take_text size r.current,
      record r { current = drop_text size r.current },
      rw f refl,
      omega (arith, length-drop-lt size r.current big f),
    )
    | inl f ↦ elim (Option-cases r.event_ch) [
      | inl g ↦ inl (rw (f, g, d) refl, ended r f g)
      | inr (event, g) ↦ inr (
        take_text size event,
        record r { event_ch = none; current = drop_text size event },
        rw (f, g) refl,
        ground (arith, g, ap held_length g, length-drop size event),
      )
    ]
  ]

  read_all-pending :
      (fuel : ℕ) (r : SseStreamReader)
      → r.is_done ≡ true
      → left_reads r < fuel
      → read_all fuel size r ≡ some (pending r)
  unfolding read_all
  read_all-pending zero r d h = absurd (omega (arith, h))
  read_all-pending (suc fuel) r d h = elim (read-cases r d) [
    | inl (e, f) ↦ rw (e, f) refl
    | inr (chunk, left, e, f) ↦
        let (p, q) = pending-read size r chunk left e in
        rw (e, read_all-pending fuel left (q ∙ d) (omega (arith, f, h)), p) refl
  ]

-- Once the sender of a reachable stream has finished, reading into any buffer comes to the end of the
-- stream, after no more reads than there are characters and events left; and the client has then
-- read all that was accepted.
pub read_all-accepted :
    (s : Stream) (size fuel : ℕ)
    → Reachable s
    → s.reader.is_done ≡ true
    → 0 < size
    → left_reads s.reader < fuel
    → (rest : String) × (read_all fuel size s.reader ≡ some rest)
      × (append s.received rest ≡ s.accepted)
read_all-accepted s size fuel r d big h =
    (pending s.reader, read_all-pending size big fuel s.reader d h, (reachable-IsSound s r).text)
