-- ===== src/Streaming/Texts.antt =====
-- internal/relay/stream_converter.go: streams that call no tool, and what their answer says.
use cli_relay.Prelude.{
  String, Option, none, some, List, [], ◌∷◌, ◌≡◌, refl, ap, sym, ◌∙◌, All, arith, if◌then◌else◌,
  ◌==◌,
}
use cli_relay.Prelude.Text.{append, append_empty, append-append}
use cli_relay.Prelude.Results.{ok, ◌>>=◌}
use cli_relay.Json.{Json, Fields}
use cli_relay.Provider.Codec.{Codec}
use cli_relay.Provider.Values
use cli_relay.Streaming.Gather
use cli_relay.Streaming.Gather.{Gathered}

abbrev head_object : List Json → Option Fields
head_object [] = none
head_object (v ∷ vs) = Values.as_object? v

-- The first choice of an event, and its delta.
abbrev pub choice_of : Fields → Option Fields
choice_of chunk = head_object (Values.as_list (Values.read "choices" chunk))

abbrev pub field_of : String → Option Fields → Json
field_of name none = Json.null
field_of name (some fs) = Values.read name fs

abbrev pub delta_of : Fields → Json
delta_of chunk = field_of "delta" (choice_of chunk)

-- What an event adds to the text, the calls and the reason.
abbrev pub spoken : Fields → String
spoken chunk = Values.as_text (field_of "content" (Values.as_object? (delta_of chunk)))

abbrev pub called : Fields → List Fields
called chunk =
    Values.objects (Values.as_list (field_of "tool_calls" (Values.as_object? (delta_of chunk))))

abbrev pub reason : Fields → String
reason chunk = Values.as_text (field_of "finish_reason" (choice_of chunk))

abbrev cons_chunk : Option Fields → List Fields → List Fields
cons_chunk none chunks = chunks
cons_chunk (some chunk) chunks = chunk ∷ chunks

-- The events of the lines.
unfoldable pub chunks : Codec → List String → List Fields
chunks codec [] = []
chunks codec (line ∷ lines) = cons_chunk (Gather.line_chunk codec line) (chunks codec lines)

unfoldable pub all_spoken : List Fields → String
unfolding append
all_spoken [] = ""
all_spoken (chunk ∷ rest) = append (spoken chunk) (all_spoken rest)

-- The last reason that is not empty.
unfoldable pub last_reason : List Fields → String
last_reason [] = ""
last_reason (chunk ∷ rest) =
    let later = last_reason rest in if later == "" then reason chunk else later

-- How far the text, the calls and the reason have come.
abbrev pub Moved : Gathered → String → String → Gathered → Type 0
Moved g more last h =
    (h.content ≡ append g.content more)
    × (h.tool_calls ≡ g.tool_calls)
    × (h.finish_reason ≡ (if last == "" then g.finish_reason else last))

usage-Moved :
    (chunk : Fields) (g h : Gathered) (more last : String)
    → Moved g more last h
    → Moved g more last (Gather.take_usage chunk h)
usage-Moved chunk g h more last m = ground arith

calls-none :
    (tcs : List Fields) (entries : List Gather.Entry)
    → tcs ≡ []
    → Gather.add_call_deltas tcs entries ≡ ok entries
unfolding Gather.add_call_deltas
calls-none tcs entries e = rw e refl

-- What a choice's delta says; `finished` has the reason of the choice already.
delta-Moved :
    (chunk : Fields) (delta : Option Fields) (g finished : Gathered) (last : String)
    → Values.objects (Values.as_list (field_of "tool_calls" delta)) ≡ []
    → Moved g "" last finished
    → (h : Gathered) × ((elim delta [
      | none ↦ ok finished
      | some d ↦ Gather.take_delta chunk d finished
    ])
        ≡ ok h)
      × Moved g (Values.as_text (field_of "content" delta)) last h
delta-Moved chunk none g finished last e m = (finished, refl, m)
delta-Moved chunk (some d) g finished last e (m, n, o) =
    let said : Gathered = record finished {
      content = append finished.content (Values.as_text (Values.read "content" d));
    } in
    (
      Gather.take_usage chunk said,
      rw
          (calls-none (Values.objects (Values.as_list (Values.read "tool_calls" d)))
            finished.tool_calls e)
          refl,
      usage-Moved chunk g said (Values.as_text (Values.read "content" d)) last
          (rw (m, append_empty) refl, n, o),
    )

choice-Moved :
    (chunk : Fields) (choice : Option Fields) (g : Gathered)
    → Values.objects
        (Values.as_list (field_of "tool_calls" (Values.as_object? (field_of "delta" choice))))
      ≡ []
    → (h : Gathered) × (Gather.take_choice chunk choice g ≡ ok h)
      × Moved g
          (Values.as_text (field_of "content" (Values.as_object? (field_of "delta" choice))))
          (Values.as_text (field_of "finish_reason" choice))
          h
choice-Moved chunk none g e = (g, refl, (sym (append_empty g.content), refl, refl))
choice-Moved chunk (some choice) g e =
    delta-Moved chunk (Values.as_object? (Values.read "delta" choice)) g
      (record g {
        finish_reason = Gather.latest (Values.read "finish_reason" choice) g.finish_reason;
      })
      (Values.as_text (Values.read "finish_reason" choice)) e
      (sym (append_empty g.content), refl, refl)

choices-Moved :
    (chunk : Fields) (choices : List Json) (g : Gathered)
    → Values.objects (
        Values.as_list
          (field_of "tool_calls" (Values.as_object? (field_of "delta" (head_object choices)))))
      ≡ []
    → (h : Gathered) × (Gather.take_choices chunk choices g ≡ ok h)
      × Moved g
          (Values.as_text
            (field_of "content" (Values.as_object? (field_of "delta" (head_object choices)))))
          (Values.as_text (field_of "finish_reason" (head_object choices)))
          h
choices-Moved chunk [] g e = (
  Gather.take_usage chunk g,
  refl,
  usage-Moved chunk g g "" "" (sym (append_empty g.content), refl, refl),
)
choices-Moved chunk (choice ∷ choices) g e = choice-Moved chunk (Values.as_object? choice) g e

take_chunk-Moved :
    (chunk : Fields) (g : Gathered)
    → called chunk ≡ []
    → (h : Gathered) × (Gather.take_chunk chunk g ≡ ok h) × Moved g (spoken chunk) (reason chunk) h
unfolding Gather.take_chunk
take_chunk-Moved chunk g e =
    choices-Moved chunk (Values.as_list (Values.read "choices" chunk))
      (record g {
        id = Gather.latest (Values.read "id" chunk) g.id;
        model = Gather.latest (Values.read "model" chunk) g.model;
      })
      e

Moved-trans :
    (g h k : Gathered) (m n l r : String)
    → Moved g m l h
    → Moved h n r k
    → Moved g (append m n) (if r == "" then l else r) k
Moved-trans g h k m n l r (a, b, c) (d, e, f) =
    (d ∙ ap (λ s. append s n) a ∙ append-append g.content m n, e ∙ b, f ∙ ground (arith, c))

module _ (codec : Codec) where
  line-Moved :
      (line : Option Fields) (lines : List String) (g : Gathered)
      → All (λ chunk. called chunk ≡ []) (cons_chunk line (chunks codec lines))
      → ((g : Gathered)
          → All (λ chunk. called chunk ≡ []) (chunks codec lines)
          → (h : Gathered) × (Gather.take_lines codec lines g ≡ ok h)
            × Moved g (all_spoken (chunks codec lines)) (last_reason (chunks codec lines)) h)
      → (h : Gathered) × ((Gather.take_line line g >>= λ next. Gather.take_lines codec lines next)
          ≡ ok h)
        × Moved g
            (all_spoken (cons_chunk line (chunks codec lines)))
            (last_reason (cons_chunk line (chunks codec lines)))
            h
  unfolding all_spoken last_reason
  line-Moved none lines g all ih = ih g all
  line-Moved (some chunk) lines g (e, all) ih =
      let (h, p, m) = take_chunk-Moved chunk g e in
      let (k, q, n) = ih h all in
      (
        k,
        rw p q,
        Moved-trans g h k (spoken chunk) (all_spoken (chunks codec lines)) (reason chunk)
            (last_reason (chunks codec lines)) m n,
      )

  pub lines-Moved :
      (lines : List String) (g : Gathered)
      → All (λ chunk. called chunk ≡ []) (chunks codec lines)
      → (h : Gathered) × (Gather.take_lines codec lines g ≡ ok h)
        × Moved g (all_spoken (chunks codec lines)) (last_reason (chunks codec lines)) h
  unfolding Gather.take_lines chunks
  lines-Moved [] g all =
      unfold all_spoken last_reason in (g, refl, (sym (append_empty g.content), refl, refl))
  lines-Moved (line ∷ lines) g all =
      line-Moved (Gather.line_chunk codec line) lines g all (lines-Moved lines)
