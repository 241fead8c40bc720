-- ===== src/Provider/Anthropic/Words.antt =====
-- internal/relay/provider/anthropic/streaming.go: what the events of the Messages API say, and what
-- the converter to them says for a chunk.
use cli_relay.Prelude.{
  ℕ, zero, suc, String, Option, none, some, List, [], ◌∷◌, ◌++◌, ◌≡◌, refl, sym, ap, ◌∙◌,
  if◌then◌else◌, ◌==◌, eq_iff, Bool-cases, inl, inr,
}
use cli_relay.Prelude.Int.{ℤ}
use cli_relay.Prelude.Text.{append, append_empty, append-append}
use cli_relay.Json.{Json, Fields}
use cli_relay.Provider.Codec.{RandomHex}
use cli_relay.Provider.Values.{as_text, as_object, as_object?, as_list, objects, read}
use cli_relay.Provider.Chunks.{ChunkChoice}
use cli_relay.Provider.Anthropic.Reverse

-- The text of a delta.
unfoldable pub event_text : Fields → String
unfolding read
event_text event =
    let delta = as_object (read "delta" event) in
    if as_text (read "type" event) == "content_block_delta"
    then if as_text (read "type" delta) == "text_delta" then as_text (read "text" delta) else ""
    else ""

unfoldable pub words : List Reverse.Event → String
unfolding append event_text
words [] = ""
words ((name, payload) ∷ events) = append (event_text payload) (words events)

pub words-append : (a b : List Reverse.Event) → words (a ++ b) ≡ append (words a) (words b)
unfolding words
words-append [] b = unfold append in refl
words-append ((name, payload) ∷ a) b =
    ap (append (event_text payload)) (words-append a b)
    ∙ sym (append-append (event_text payload) (words a) (words b))

-- Events that say nothing leave the words as they are.
words-silent : (a b : List Reverse.Event) → words b ≡ "" → words (a ++ b) ≡ words a
words-silent a b e = words-append a b ∙ ap (append (words a)) e ∙ append_empty (words a)

close_at-words : (i : ℕ) (st : Reverse.State) → words (Reverse.close_at i st).1 ≡ words st.1
close_at-words (suc i) st = refl
close_at-words zero (s, events) = words-silent events _ (unfold words event_text append in refl)

module _ (random_hex : RandomHex) where
  start_tool-words :
      (id name : String) (st : Reverse.State)
      → words (Reverse.start_tool random_hex id name st).1 ≡ words st.1
  start_tool-words id name (s, events) = elim (Bool-cases (id == "")) [
    | inl e ↦ rw e (words-silent events _ (unfold words event_text append read in refl))
    | inr e ↦ rw e (words-silent events _ (unfold words event_text append read in refl))
  ]

  name_tool-words :
      (id name : String) (st : Reverse.State)
      → words (Reverse.name_tool random_hex id name st).1 ≡ words st.1
  name_tool-words id name st = elim (Bool-cases (name == "")) [
    | inl e ↦ rw e refl
    | inr e ↦
        rw e (start_tool-words id name (Reverse.close_text st) ∙ close_at-words st.0.block_idx st)
  ]

  add_input-words :
      (args : String) (st : Reverse.State)
      → words (Reverse.add_input random_hex args st).1 ≡ words st.1
  add_input-words args (s, events) = elim (Bool-cases (args == "")) [
    | inl e ↦ rw e refl
    | inr e ↦ rw e (words-silent events _ (unfold words event_text append read in refl))
  ]

  convert_call-words :
      (tc : Fields) (fn : Option Fields) (st : Reverse.State)
      → words (Reverse.convert_call random_hex tc fn st).1 ≡ words st.1
  convert_call-words tc none st = refl
  convert_call-words tc (some fn) st =
      add_input-words (as_text (read "arguments" fn)) _
      ∙ name_tool-words (as_text (read "id" tc)) (as_text (read "name" fn)) st

  pub convert_calls-words :
      (tcs : List Fields) (st : Reverse.State)
      → words (Reverse.convert_calls random_hex tcs st).1 ≡ words st.1
  unfolding Reverse.convert_calls
  convert_calls-words [] st = refl
  convert_calls-words (tc ∷ tcs) st =
      convert_calls-words tcs
        (Reverse.convert_call random_hex tc (as_object? (read "function" tc)) st)
      ∙ convert_call-words tc (as_object? (read "function" tc)) st

  pub finish_message-words :
      (reason : Option String) (usage : Option (ℤ × ℤ)) (st : Reverse.State)
      → words (Reverse.finish_message random_hex reason usage st).1 ≡ words st.1
  finish_message-words none usage st = refl
  finish_message-words (some reason) usage (s, events) =
      words-silent events _
        (unfold words event_text append read Reverse.build_message_delta in refl)

  pub start_message-words :
      (s : Reverse.AnthropicReverseState) → words (Reverse.start_message random_hex s).1 ≡ ""
  unfolding words event_text append read Reverse.build_message_start
  start_message-words s = elim (Bool-cases s.started) [ inl e ↦ rw e refl | inr e ↦ rw e refl ]

  pub say-words :
      (said : String) (st : Reverse.State)
      → words (Reverse.say random_hex said st).1 ≡ append (words st.1) said
  say-words said (s, events) = elim (Bool-cases (said == "")) [
    | inl e ↦
        rw e (sym (ap (append (words events)) ((eq_iff said "").0 e) ∙ append_empty (words events)))
    | inr e ↦ rw e (
        words-append events _
        ∙ ap (append (words events)) (unfold words event_text read in append_empty said))
  ]

  -- A choice says its content, or calls tools and says nothing.
  pub convert_choices-words :
      (usage : Option (ℤ × ℤ)) (choice : ChunkChoice) (s : Reverse.AnthropicReverseState)
      → as_list (read "tool_calls" choice.delta) ≡ []
      → words (Reverse.convert_choices random_hex usage (choice ∷ []) s).1
        ≡ as_text (read "content" choice.delta)
  convert_choices-words usage choice s e =
      finish_message-words choice.finish_reason usage _
      ∙ rw e (
          say-words (as_text (read "content" choice.delta)) (Reverse.start_message random_hex s)
          ∙ rw (start_message-words s) (unfold append in refl))

  pub convert_choices-calls :
      (usage : Option (ℤ × ℤ)) (choice : ChunkChoice) (s : Reverse.AnthropicReverseState) (v : Json)
      (vs : List Json)
      → as_list (read "tool_calls" choice.delta) ≡ v ∷ vs
      → words (Reverse.convert_choices random_hex usage (choice ∷ []) s).1 ≡ ""
  convert_choices-calls usage choice s v vs e =
      finish_message-words choice.finish_reason usage _
      ∙ rw e (
          convert_calls-words (objects (v ∷ vs)) (Reverse.start_message random_hex s)
          ∙ start_message-words s)
