-- ===== src/Streaming/Reader/Order.antt =====
-- internal/relay/sse_reader.go: what is read of what was sent.
use cli_relay.Prelude.{
  ℕ, zero, suc, String, true, none, some, ◌≡◌, refl, ap, ap₂, sym, ◌∙◌, arith, ◌==◌, eq_iff,
  Bool-cases, Option-cases, inl, inr,
}
use cli_relay.Prelude.Text.{append, take_text, drop_text, append_empty, append-append}
use cli_relay.Streaming.Reader.{
  SseStreamReader, ReadResult, copied, read, pending, held, finished, Stream, fresh, Step, begin,
  refuse, deliver, give_up, finish, close_step, read_step, Reachable, start, next,
}

pub take-drop : (n : ℕ) (s : String) → append (take_text n s) (drop_text n s) ≡ s
unfolding append take_text drop_text
take-drop zero s = refl
take-drop (suc n) String.[] = refl
take-drop (suc n) (String.◌∷◌ c s) = ap (λ t. String.◌∷◌ c t) (take-drop n s)

take-drop-then :
    (n : ℕ) (s t : String) → append (take_text n s) (append (drop_text n s) t) ≡ append s t
take-drop-then n s t =
    sym (append-append (take_text n s) (drop_text n s) t) ∙ ap (λ u. append u t) (take-drop n s)

empty_append : (s : String) → append "" s ≡ s
unfolding append
empty_append s = refl

abbrev chunk_of : ReadResult → String
chunk_of (copied chunk r) = chunk
chunk_of _ = ""

abbrev reader_of : SseStreamReader → ReadResult → SseStreamReader
reader_of r (copied chunk left) = left
reader_of r _ = r

pending-copied :
    (a chunk : String) (r left : SseStreamReader)
    → copied a r ≡ copied chunk left
    → (append chunk (pending left) ≡ append a (pending r)) × (left.is_done ≡ r.is_done)
pending-copied a chunk r left e = (
  sym (ap₂ (λ c (x : SseStreamReader). append c (pending x)) (ap chunk_of e) (ap (reader_of r) e)),
  sym (ap (λ x. (reader_of r x).is_done) e),
)

pending-empty :
    (r : SseStreamReader) (event : String)
    → (r.current == "") ≡ true
    → r.event_ch ≡ some event
    → pending r ≡ event
unfolding pending
pending-empty r event f g = rw ((eq_iff r.current "").0 f, g) (empty_append event)

-- What a read leaves behind its chunk is what it found.
pub pending-read :
    (size : ℕ) (r : SseStreamReader) (chunk : String) (left : SseStreamReader)
    → read size r ≡ copied chunk left
    → (append chunk (pending left) ≡ pending r) × (left.is_done ≡ r.is_done)
unfolding read
pending-read size r chunk left e = elim (Bool-cases (r.current == "")) [
  | inr f ↦
      let (p, d) = pending-copied _ chunk _ left (rw f at e) in
      (p ∙ unfold pending in take-drop-then size r.current (held r.event_ch), d)
  | inl f ↦ elim (Option-cases r.event_ch) [
    | inl g ↦ ground (arith, e, f, g)
    | inr (event, g) ↦
        let (p, d) = pending-copied _ chunk _ left (rw (f, g) at e) in
        (
          p
              ∙ unfold pending in
                (take-drop-then size event "" ∙ append_empty event)
                ∙ sym (pending-empty r event f g),
          d,
        )
  ]
]

-- The texts agree, and only a sender that has finished has closed the channel.
pub record IsSound (s : Stream) : Type 0 where
  pub text : append s.received (pending s.reader) ≡ s.accepted
  pub end : s.reader.is_done ≡ true → s.sender ≡ finished

pending-deliver :
    (r : SseStreamReader) (event : String)
    → r.event_ch ≡ none
    → pending (record r { event_ch = some event }) ≡ append (pending r) event
unfolding pending
pending-deliver r event f = rw (f, append_empty) refl

start-IsSound : IsSound fresh
start-IsSound = record { text = unfold pending append in refl; end = λ e. cc }

step-IsSound : (s t : Stream) → Step s t → IsSound s → IsSound t
step-IsSound s t (begin event e f) h = record { text = h.text; end = λ d. let c = h.end d in cc }
step-IsSound s t (refuse event e f) h = h
step-IsSound s t (deliver event e f) h = record {
  text =
      ap (append s.received) (pending-deliver s.reader event f)
      ∙ sym (append-append s.received (pending s.reader) event)
      ∙ ap (λ u. append u event) h.text;
  end = λ d. let c = h.end d in cc;
}
step-IsSound s t (give_up event e f) h = record { text = h.text; end = λ d. let c = h.end d in cc }
step-IsSound s t (finish e) h = record { text = unfold pending in h.text; end = λ d. refl }
step-IsSound s t close_step h = record { text = unfold pending in h.text; end = h.end }
step-IsSound s t (read_step size chunk r e) h =
    let (l, m) = pending-read size s.reader chunk r e in
    record {
      text = append-append s.received chunk (pending r) ∙ ap (append s.received) l ∙ h.text;
      end = λ d. h.end (sym m ∙ d);
    }

-- Whatever the two goroutines do and in whatever order: what was read, with what the reader still
-- holds, is what `Send` accepted, in order; and the channel is closed only by a sender that has
-- finished, so nothing is sent on a closed channel.
pub reachable-IsSound : (s : Stream) → Reachable s → IsSound s
reachable-IsSound s start = start-IsSound
reachable-IsSound s (next {s = before} r step) =
    step-IsSound before s step (reachable-IsSound before r)
