-- ===== src/Streaming/Gather.antt =====
-- internal/relay/stream_converter.go: the events of a stream, gathered into one answer of the Chat
-- Completions API. The builder of a call's arguments stands beside the call. A negative index of a
-- call is an error here: the panic of the request.
use cli_relay.Prelude.{
  ℕ, zero, suc, ◌-◌, String, Option, none, some, List, [], ◌∷◌, ◌++◌, length, if◌then◌else◌, ◌==◌,
}
use cli_relay.Prelude.Int.{ℤ, pos, negsuc}
use cli_relay.Prelude.Text.{append, split_lines, trim_space, strip_prefix?}
use cli_relay.Prelude.Results.{Result, ok, err, ◌>>=◌}
use cli_relay.Json.{Json, null, number, text, array, object, Fields, end, field, of_int}
use cli_relay.Provider.Codec.{Codec, decoded_map}
use cli_relay.Provider.Values.{
  as_text, as_text?, as_int, as_object?, as_list, objects, read, put, put_some, items,
}

-- A call, and what its builder holds.
pub record Entry : Type 0 where
  pub call : Fields
  pub arguments : String

-- The variables of the loop.
pub record Gathered : Type 0 where
  pub content : String
  pub tool_calls : List Entry
  pub finish_reason : String
  pub usage : Option Fields
  pub model : String
  pub id : String

abbrev pub nothing : Gathered
nothing = record {
  content = "";
  tool_calls = [];
  finish_reason = "";
  usage = none;
  model = "";
  id = "";
}

-- `if v, ok := x.(string); ok && v != "" { kept = v }`
abbrev pub latest : Json → String → String
latest v kept = let s = as_text v in if s == "" then kept else s

abbrev fresh_entries : ℕ → ℕ → List Entry
fresh_entries i zero = []
fresh_entries i (suc n) =
    record { call = field "index" (number (of_int (pos i))) end; arguments = "" }
    ∷ fresh_entries (suc i) n

-- The slice grows until it has the index.
unfoldable pub grow : ℕ → List Entry → List Entry
grow idx entries = entries ++ fresh_entries (length entries) (suc idx - length entries)

unfoldable pub update_at : ℕ → (Entry → Entry) → List Entry → List Entry
update_at i f [] = []
update_at zero f (entry ∷ entries) = f entry ∷ entries
update_at (suc i) f (entry ∷ entries) = entry ∷ update_at i f entries

abbrev name_call : Json → Option String → Entry → Entry
name_call id none entry = entry
name_call id (some name) entry = record entry {
  call =
      put "function" (object (field "name" (text name) (field "arguments" (text "") end)))
        (put "type" (text "function") (put "id" id entry.call));
}

abbrev add_arguments : Option String → Entry → Entry
add_arguments none entry = entry
add_arguments (some args) entry = record entry { arguments = append entry.arguments args }

abbrev apply_function : Json → Option Fields → Entry → Entry
apply_function id none entry = entry
apply_function id (some fn) entry =
    add_arguments (as_text? (read "arguments" fn)) (name_call id (as_text? (read "name" fn)) entry)

abbrev at_index : ℤ → (ℕ → List Entry) → Result (List Entry)
at_index (pos i) change = ok (change i)
at_index (negsuc n) change = err "index out of range"

-- One round of the loop over the deltas of calls.
unfoldable pub add_call_delta : Fields → List Entry → Result (List Entry)
unfolding put append grow update_at
add_call_delta tc entries = at_index (as_int (read "index" tc)) λ i.
    update_at i (apply_function (read "id" tc) (as_object? (read "function" tc))) (grow i entries)

unfoldable pub add_call_deltas : List Fields → List Entry → Result (List Entry)
unfolding add_call_delta
add_call_deltas [] entries = ok entries
add_call_deltas (tc ∷ tcs) entries =
    add_call_delta tc entries >>= λ changed. add_call_deltas tcs changed

abbrev pub take_usage : Fields → Gathered → Gathered
take_usage chunk g = elim (as_object? (read "usage" chunk)) [
  | none ↦ g
  | some u ↦ record g { usage = some u }
]

abbrev pub take_delta : Fields → Fields → Gathered → Result Gathered
take_delta chunk delta g =
    add_call_deltas (objects (as_list (read "tool_calls" delta))) g.tool_calls >>= λ calls. ok (
      take_usage chunk (record g {
        content = append g.content (as_text (read "content" delta));
        tool_calls = calls;
      }))

-- A choice without a delta ends the round before the usage is read.
abbrev pub take_choice : Fields → Option Fields → Gathered → Result Gathered
take_choice chunk none g = ok g
take_choice chunk (some choice) g =
    let finished = record g {
      finish_reason = latest (read "finish_reason" choice) g.finish_reason;
    } in
    elim (as_object? (read "delta" choice)) [
      | none ↦ ok finished
      | some delta ↦ take_delta chunk delta finished
    ]

abbrev pub take_choices : Fields → List Json → Gathered → Result Gathered
take_choices chunk [] g = ok (take_usage chunk g)
take_choices chunk (choice ∷ choices) g = take_choice chunk (as_object? choice) g

-- One event.
unfoldable pub take_chunk : Fields → Gathered → Result Gathered
unfolding append add_call_deltas
take_chunk chunk g =
    take_choices chunk (as_list (read "choices" chunk))
      (record g { id = latest (read "id" chunk) g.id; model = latest (read "model" chunk) g.model })

abbrev data_chunk : Codec → Option String → Option Fields
data_chunk codec none = none
data_chunk codec (some data_text) =
    if data_text == "[DONE]" then none else decoded_map (codec.unmarshal data_text)

-- The event that a line holds.
unfoldable pub line_chunk : Codec → String → Option Fields
unfolding strip_prefix? trim_space
line_chunk codec line = data_chunk codec (strip_prefix? "data: " (trim_space line))

abbrev pub take_line : Option Fields → Gathered → Result Gathered
take_line none g = ok g
take_line (some chunk) g = take_chunk chunk g

unfoldable pub take_lines : Codec → List String → Gathered → Result Gathered
unfolding line_chunk take_chunk
take_lines codec [] g = ok g
take_lines codec (line ∷ lines) g =
    take_line (line_chunk codec line) g >>= λ h. take_lines codec lines h

abbrev finish_function : String → Option Fields → Fields → Fields
finish_function arguments none call = call
finish_function arguments (some fn) call =
    put "function" (object (put "arguments" (text arguments) fn)) call

unfoldable pub finished_calls : List Entry → List Json
unfolding put
finished_calls [] = []
finished_calls (entry ∷ entries) =
    object (finish_function entry.arguments (as_object? (read "function" entry.call)) entry.call)
    ∷ finished_calls entries

abbrev gathered_message : String → List Json → Fields
gathered_message content [] = field "role" (text "assistant") (field "content" (text content) end)
gathered_message content (call ∷ calls) =
    field "role" (text "assistant")
      (field "content" null (field "tool_calls" (array (items (call ∷ calls))) end))

abbrev gathered_reason : String → List Json → String
gathered_reason reason [] = if reason == "" then "stop" else reason
gathered_reason reason (call ∷ calls) = "tool_calls"

abbrev object_or_none : Option Fields → Option Json
object_or_none none = none
object_or_none (some fs) = some (object fs)

unfoldable pub gathered_answer : Gathered → Fields
unfolding put_some finished_calls items
gathered_answer g =
    let calls = finished_calls g.tool_calls in
    let gathered_choice = field "index" (number (pos 0)) (
      field "message" (object (gathered_message g.content calls))
        (field "finish_reason" (text (gathered_reason g.finish_reason calls)) end)) in
    let resp = field "id" (text g.id) (
      field "object" (text "chat.completion") (
        field "created" (number (pos 0)) (
          field "model" (text g.model)
            (field "choices" (array (items (object gathered_choice ∷ []))) end)))) in
    put_some "usage" (object_or_none g.usage) resp

unfoldable pub stream_to_non_stream : Codec → String → Result Json
unfolding split_lines take_lines gathered_answer
stream_to_non_stream codec sse_body =
    take_lines codec (split_lines sse_body) nothing >>= λ g. ok (object (gathered_answer g))
