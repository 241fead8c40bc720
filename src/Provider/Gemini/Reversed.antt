-- ===== src/Provider/Gemini/Reversed.antt =====
-- internal/relay/provider/gemini/streaming.go: `convertReverseLine` on the chunks of an upstream of the
-- Chat Completions API, which sends each in a line of its own.
use cli_relay.Prelude.{
  All, true, String, Option, none, some, List, [], ◌∷◌, ◌≡◌, refl, sym, ap, ◌∙◌, ap₂, ◌==◌, eq_iff,
  Bool-cases, inl, inr,
}
use cli_relay.Prelude.Int.{ℤ}
use cli_relay.Prelude.Text.{append, append_empty}
use cli_relay.Prelude.Results.{Result, ok, err, is_ok}
use cli_relay.Json.{Json, Fields}
use cli_relay.Provider.Codec.{Codec}
use cli_relay.Provider.Values.{
  as_text, as_object?, as_list, objects, read, elements, elements-items,
}
use cli_relay.Provider.Chunks.{ChunkChoice, decode_chunk}
use cli_relay.Provider.Gemini.Reverse
use cli_relay.Provider.Chunks.{Chunk}
use cli_relay.Prelude.Results.{Result, err}
use cli_relay.Provider.Contents.{said_by, chunk_content, decode_chunk-content}
use cli_relay.Provider.Gemini.Words.{parts_text, chunk_text, all_text, all_content}

-- What the reverse converter says for a chunk.
abbrev option_text : Option Fields → String
option_text none = ""
option_text (some chunk) = chunk_text chunk

module _ (codec : Codec) where
  streamed_part-text :
      (fn : Option Fields) (rest : List Json)
      → parts_text (objects (Reverse.streamed_part codec fn rest)) ≡ parts_text (objects rest)
  streamed_part-text none rest = refl
  streamed_part-text (some fn) rest = unfold parts_text objects read append in refl

  streamed_parts-text :
      (tcs : List Fields) → parts_text (objects (Reverse.streamed_parts codec tcs)) ≡ ""
  unfolding Reverse.streamed_parts
  streamed_parts-text [] = unfold parts_text objects in refl
  streamed_parts-text (tc ∷ tcs) =
      streamed_part-text (as_object? (read "function" tc)) _ ∙ streamed_parts-text tcs

  delta_parts-text :
      (delta : Fields)
      → parts_text (objects (Reverse.delta_parts codec delta)) ≡ as_text (read "content" delta)
  unfolding Reverse.delta_parts Reverse.text_parts
  delta_parts-text delta =
      let said = as_text (read "content" delta) in
      let calls = objects (as_list (read "tool_calls" delta)) in
      elim (Bool-cases (said == "")) [
        | inl e ↦ rw e (streamed_parts-text calls ∙ sym ((eq_iff said "").0 e))
        | inr e ↦ rw e (
            unfold parts_text objects read in
            ap (append said) (streamed_parts-text calls) ∙ append_empty said)
      ]

  gemini_chunk-text :
      (parts : List Json) (reason : Option String) (usage : Option (ℤ × ℤ))
      → chunk_text (Reverse.gemini_chunk codec parts reason usage) ≡ parts_text (objects parts)
  unfolding chunk_text Reverse.gemini_chunk read as_list elements
  gemini_chunk-text parts none none = ap (λ vs. parts_text (objects vs)) (elements-items parts)
  gemini_chunk-text parts none (some u) = ap (λ vs. parts_text (objects vs)) (elements-items parts)
  gemini_chunk-text parts (some r) none = ap (λ vs. parts_text (objects vs)) (elements-items parts)
  gemini_chunk-text parts (some r) (some u) =
      ap (λ vs. parts_text (objects vs)) (elements-items parts)

  unless_bare-text :
      (parts : List Json) (reason : Option String) (usage : Option (ℤ × ℤ))
      → option_text (Reverse.chunk_unless_bare codec parts reason usage)
        ≡ parts_text (objects parts)
  unless_bare-text [] none none = unfold parts_text objects in refl
  unless_bare-text [] none (some u) = gemini_chunk-text [] none (some u)
  unless_bare-text [] (some r) usage = gemini_chunk-text [] (some r) usage
  unless_bare-text (v ∷ vs) reason usage = gemini_chunk-text (v ∷ vs) reason usage

-- The chunk decodes.
abbrev pub IsChunk : Fields → Type 0
IsChunk chunk = is_ok (decode_chunk chunk) ≡ true

abbrev cons_some : Option Fields → List Fields → List Fields
cons_some none rest = rest
cons_some (some chunk) rest = chunk ∷ rest

module _ (codec : Codec) where
  -- The loop over the lines, each with one chunk.
  unfoldable pub reverse_chunks : Reverse.GeminiReverseState → List Fields → List Fields
  unfolding Reverse.reverse_gemini_chunk
  reverse_chunks r [] = []
  reverse_chunks r (chunk ∷ chunks) =
      let (next, converted) = Reverse.reverse_gemini_chunk codec chunk r in
      cons_some converted (reverse_chunks next chunks)

  cons_some-text :
      (o : Option Fields) (rest : List Fields)
      → all_text (cons_some o rest) ≡ append (option_text o) (all_text rest)
  unfolding all_text
  cons_some-text none rest = unfold append in refl
  cons_some-text (some chunk) rest = refl

  usage-silent : (usage : Option (ℤ × ℤ)) → option_text (Reverse.convert_first codec usage []) ≡ ""
  usage-silent none = refl
  usage-silent (some (prompt, completion)) = unfold chunk_text read as_list in refl

  first-text :
      (usage : Option (ℤ × ℤ)) (choices : List ChunkChoice)
      → option_text (Reverse.convert_first codec usage choices) ≡ said_by choices
  first-text usage [] = usage-silent usage
  first-text usage (choice ∷ choices) =
      unless_bare-text codec (Reverse.delta_parts codec choice.delta) choice.finish_reason usage
      ∙ delta_parts-text codec choice.delta

  result-text :
      (result : Result Chunk) (fs : Fields) (r : Reverse.GeminiReverseState)
      → decode_chunk fs ≡ result
      → is_ok result ≡ true
      → option_text (Reverse.reverse_result codec result r).1 ≡ chunk_content fs
  result-text (err m) fs r e h = cc
  result-text (ok chunk) fs r e h =
      first-text chunk.usage chunk.choices ∙ decode_chunk-content fs chunk e

  -- The chunks of `streamGenerateContent` that the chunks of a stream of the Chat Completions API, one a
  -- line, are converted to say in order the contents of their first choices, where all of these decode,
  -- and whatever state the converter is in.
  pub reverse_chunks-text :
      (chunks : List Fields)
      → All IsChunk chunks
      → (r : Reverse.GeminiReverseState) → all_text (reverse_chunks r chunks) ≡ all_content chunks
  unfolding reverse_chunks all_content Reverse.reverse_gemini_chunk
  reverse_chunks-text [] h r = unfold all_text in refl
  reverse_chunks-text (chunk ∷ chunks) (h, hs) r =
      let (next, converted) = Reverse.reverse_result codec (decode_chunk chunk) r in
      cons_some-text converted (reverse_chunks next chunks)
      ∙ ap₂ append (result-text (decode_chunk chunk) chunk r refl h)
          (reverse_chunks-text chunks hs next)
