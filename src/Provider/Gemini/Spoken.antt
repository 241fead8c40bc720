-- ===== src/Provider/Gemini/Spoken.antt =====
-- internal/relay/provider/gemini/streaming.go: `convertChunk`, and what the chunks say that it gives.
use cli_relay.Prelude.{
  ℕ, String, Option, none, some, List, [], ◌∷◌, ◌≡◌, refl, sym, ap, ap₂, ◌∙◌, ◌==◌, eq_iff,
  Bool-cases, inl, inr,
}
use cli_relay.Prelude.Text.{append, append_empty, append-append}
use cli_relay.Json.{Json, Fields}
use cli_relay.Provider.Codec.{Codec, RandomHex}
use cli_relay.Provider.Values.{
  as_text, as_text?, as_object, as_object?, as_list, objects, read, put_some,
}
use cli_relay.Provider.Anthropic.Streams.{build_open_ai_chunk}
use cli_relay.Provider.Gemini.Responses.{finish_of}
use cli_relay.Provider.Gemini.Streams
use cli_relay.Provider.Values.{items, elements}
use cli_relay.Provider.Internal.{InternalUsage}
use cli_relay.Provider.Contents.{chunk_content}
use cli_relay.Provider.Gemini.Words.{
  text_or_empty, parts_text, candidate_text, chunk_text, all_text, all_content, all_content-append,
}

module _ (codec : Codec) (random_hex : RandomHex) where
  gather_call-text :
      (fc : Option Fields) (g : Streams.GatheredParts)
      → (Streams.gather_call codec random_hex fc g).content_text ≡ g.content_text
  gather_call-text none g = refl
  gather_call-text (some fc) g = refl

  gather_text-text :
      (o : Option String) (g : Streams.GatheredParts)
      → (Streams.gather_text codec random_hex o g).content_text
        ≡ append g.content_text (text_or_empty o)
  gather_text-text none g = sym (append_empty g.content_text)
  gather_text-text (some words) g = refl

  gather_parts-text :
      (parts : List Fields) (g : Streams.GatheredParts)
      → (Streams.gather_parts codec random_hex parts g).content_text
        ≡ append g.content_text (parts_text parts)
  unfolding Streams.gather_parts parts_text
  gather_parts-text [] g = sym (append_empty g.content_text)
  gather_parts-text (part ∷ parts) g =
      gather_parts-text parts _
      ∙ ap (λ said. append said (parts_text parts))
          (gather_call-text (as_object? (read "functionCall" part)) _
            ∙ gather_text-text (as_text? (read "text" part)) g)
      ∙ append-append g.content_text (text_or_empty (as_text? (read "text" part)))
          (parts_text parts)

build-content :
    (id model : String) (delta : Fields) (reason : String)
    → chunk_content (build_open_ai_chunk id model delta reason) ≡ as_text (read "content" delta)
unfolding chunk_content build_open_ai_chunk items read as_list elements
build-content id model delta reason = refl

usage-content :
    (s : Streams.GeminiStreamState) (reason : String) (usage : InternalUsage)
    → chunk_content (Streams.build_gemini_chunk_with_usage s reason usage) ≡ ""
unfolding chunk_content Streams.build_gemini_chunk_with_usage items read as_list elements
usage-content s reason usage = refl

usage_chunk-content :
    (s : Streams.GeminiStreamState) (reason : String) (um : Option Fields)
    → all_content (Streams.usage_chunk s reason um) ≡ ""
unfolding all_content
usage_chunk-content s reason none = refl
usage_chunk-content s reason (some um) = rw (usage-content s reason _) (unfold append in refl)

final_usage-content :
    (s : Streams.GeminiStreamState) (reason : String) (chunk : Fields)
    → all_content (Streams.final_usage s reason chunk) ≡ ""
unfolding Streams.final_usage
final_usage-content s reason chunk = elim (Bool-cases (reason == "")) [
  | inl e ↦ rw e (unfold all_content in refl)
  | inr e ↦ rw e (usage_chunk-content s reason (as_object? (read "usageMetadata" chunk)))
]

role_chunk-content : (s : Streams.GeminiStreamState) → all_content (Streams.role_chunk s) ≡ ""
unfolding all_content
role_chunk-content s = elim (Bool-cases s.role_sent) [
  | inl e ↦ rw e refl
  | inr e ↦ rw (e, build-content) (unfold append read in refl)
]

delta_with-content :
    (calls : List Json) (said : String) (drawn : ℕ)
    → as_text (
        read "content"
          (Streams.delta_of (record { drawn = drawn; content_text = said; tool_calls = calls })))
      ≡ said
unfolding read
delta_with-content [] said drawn = elim (Bool-cases (said == "")) [
  | inl e ↦ rw e (unfold put_some in sym ((eq_iff said "").0 e))
  | inr e ↦ rw e (unfold put_some in refl)
]
delta_with-content (v ∷ vs) said drawn = elim (Bool-cases (said == "")) [
  | inl e ↦ rw e (unfold put_some in sym ((eq_iff said "").0 e))
  | inr e ↦ rw e (unfold put_some in refl)
]

module _ (codec : Codec) (random_hex : RandomHex) where
  candidate-content :
      (s : Streams.GeminiStreamState) (chunk cand : Fields)
      → all_content (Streams.convert_candidate codec random_hex s chunk cand).1
        ≡ parts_text (objects (as_list (read "parts" (as_object (read "content" cand)))))
  unfolding Streams.convert_candidate
  candidate-content s chunk cand =
      let parts = objects (as_list (read "parts" (as_object (read "content" cand)))) in
      let start = Streams.start_gathering codec random_hex s in
      let g = Streams.gather_parts codec random_hex parts start in
      let reason =
        Streams.calls_reason g.tool_calls (finish_of (as_text? (read "finishReason" cand))) in
      let built = build_open_ai_chunk s.role_id s.model (Streams.delta_of g) reason in
      let said =
        build-content s.role_id s.model (Streams.delta_of g) reason
        ∙ delta_with-content g.tool_calls g.content_text g.drawn in
      let behind : all_content (built ∷ Streams.final_usage s reason chunk)
          ≡ append g.content_text "" =
        unfold all_content in ap₂ append said (final_usage-content s reason chunk) in
      all_content-append (Streams.role_chunk s) (built ∷ Streams.final_usage s reason chunk)
      ∙ ap₂ append (role_chunk-content s) behind
      ∙ unfold append in
        append_empty g.content_text
        ∙ gather_parts-text codec random_hex parts start
        ∙ unfold append in refl

  candidates-content :
      (s : Streams.GeminiStreamState) (chunk : Fields) (cands : List Json)
      → all_content (Streams.convert_candidates codec random_hex s chunk cands).1
        ≡ candidate_text cands
  candidates-content s chunk [] = usage_chunk-content s "" (as_object? (read "usageMetadata" chunk))
  candidates-content s chunk (cand ∷ cands) = candidate-content s chunk (as_object cand)

  -- The chunks of the Chat Completions API that a stream of `streamGenerateContent` is converted to have,
  -- in order, the text of the parts of each first candidate as their content, whatever the chunks are
  -- and whatever state the converter is in.
  pub convert_chunks-content :
      (model : String) (s : Streams.GeminiStreamState) (chunks : List Fields)
      → all_content (Streams.convert_chunks codec random_hex model s chunks).1 ≡ all_text chunks
  unfolding Streams.convert_chunks Streams.convert_chunk all_text
  convert_chunks-content model s [] = unfold all_content in refl
  convert_chunks-content model s (chunk ∷ chunks) =
      let (next, converted) = Streams.convert_chunk codec random_hex model s chunk in
      all_content-append converted (Streams.convert_chunks codec random_hex model next chunks).1
      ∙ ap₂ append
          (unfold chunk_text in
            candidates-content (Streams.name_stream model s) chunk
              (as_list (read "candidates" chunk)))
          (convert_chunks-content model next chunks)
