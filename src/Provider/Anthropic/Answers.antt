-- ===== src/Provider/Anthropic/Answers.antt =====
-- internal/relay/provider/anthropic/response_convert.go: an answer that is written for the Messages
-- API and read back.
use cli_relay.Prelude.{
  String, false, some, List, [], ◌∷◌, ◌++◌, map, ◌≡◌, ◌⊎◌, inl, inr, refl, ap, All, arith, ◌==◌,
  eq_iff, ◌∙◌,
}
use mathlib.Core.List.{append-nil, append_assoc}
use cli_relay.Prelude.Int.{pos}
use cli_relay.Prelude.Results.{ok, ◌>>=◌}
use cli_relay.Json.{Json, null, object, Fields}
use cli_relay.Provider.Internal.{
  InternalMessage, InternalContentPart, InternalToolCall, InternalResponse, InternalChoice,
}
use cli_relay.Provider.Codec.{Codec}
use cli_relay.Provider.Values
use cli_relay.Provider.OpenAi.Parse.{text_part}
use cli_relay.Provider.Anthropic.Parse.{add_content, add_call}
use cli_relay.Provider.Anthropic.Responses

abbrev pub IsText : InternalContentPart → Type 0
IsText p = (s : String) × (p ≡ text_part s)

as_text-omit_empty :
    (s : String) → Values.as_text (Values.or_json (Responses.omit_empty s) null) ≡ s
as_text-omit_empty s = ground (arith, eq_iff s "")

text-block :
    (codec : Codec) (s : String) (im : InternalMessage)
    → Responses.add_response_block codec (Responses.answer_text_block s) im
      ≡ add_content (text_part s) im
unfolding Responses.add_response_block Responses.answer_text_block
text-block codec s im = simp (Values.fields, as_text-omit_empty)

blocks-parts :
    (parts : List InternalContentPart)
    → All IsText parts
    → Responses.answer_blocks parts
      ≡ map (λ p. object (Responses.answer_text_block p.content)) parts
unfolding Responses.answer_blocks
blocks-parts [] h = refl
blocks-parts (p ∷ parts) ((s, e), h) =
    rw e (ap (λ rest. object (Responses.answer_text_block s) ∷ rest) (blocks-parts parts h))

module _ (codec : Codec) where
  -- The arguments are the text of the JSON that they hold.
  abbrev pub IsCanonical : InternalToolCall → Type 0
  IsCanonical tc =
      ((tc.arguments == "") ≡ false)
      × (v : Json) × (codec.unmarshal tc.arguments ≡ some v)
      × (codec.marshal v ≡ tc.arguments)

  abbrev use_of : InternalToolCall → Fields
  use_of tc = Responses.answer_tool_use tc (codec.unmarshal tc.arguments)

  uses-calls :
      (calls : List InternalToolCall)
      → All IsCanonical calls
      → Responses.answer_tool_uses codec calls ≡ ok (map (λ tc. object (use_of tc)) calls)
  unfolding Responses.answer_tool_uses
  uses-calls [] h = refl
  uses-calls (tc ∷ calls) ((e, v, f, g), h) = rw (e, f, uses-calls calls h) refl

  use-block :
      (tc : InternalToolCall) (im : InternalMessage)
      → IsCanonical tc
      → Responses.add_response_block codec (use_of tc) im ≡ add_call tc im
  unfolding Responses.add_response_block Responses.answer_tool_use
  use-block tc im (e, v, f, g) = simp (Values.fields, as_text-omit_empty, f, g)

  text-blocks :
      (parts : List InternalContentPart) (rest : List Fields) (im : InternalMessage)
      → All IsText parts
      → Responses.add_response_blocks codec
          (map (λ p. Responses.answer_text_block p.content) parts ++ rest)
          im
        ≡ Responses.add_response_blocks codec rest (record im { content = im.content ++ parts })
  unfolding Responses.add_response_blocks
  text-blocks [] rest im h = rw append-nil refl
  text-blocks (p ∷ parts) rest im ((s, e), h) =
      rw
        (
          e,
          text-block codec s im,
          text-blocks parts rest (add_content (text_part s) im) h,
          append_assoc,
        )
        refl

  use-blocks :
      (calls : List InternalToolCall) (im : InternalMessage)
      → All IsCanonical calls
      → Responses.add_response_blocks codec (map use_of calls) im
        ≡ record im { tool_calls = im.tool_calls ++ calls }
  unfolding Responses.add_response_blocks
  use-blocks [] im h = rw append-nil refl
  use-blocks (tc ∷ calls) im (hc, h) =
      ap (Responses.add_response_blocks codec (map use_of calls)) (use-block tc im hc)
      ∙ rw (use-blocks calls (add_call tc im) h, append_assoc) refl

  abbrev blocks_of : InternalMessage → List Fields
  blocks_of im =
      map (λ p. Responses.answer_text_block p.content) im.content ++ map use_of im.tool_calls

  read-blocks :
      (im : InternalMessage)
      → All IsText im.content
      → All IsCanonical im.tool_calls
      → Responses.add_response_blocks codec (blocks_of im) Responses.empty_message
        ≡ record Responses.empty_message { content = im.content; tool_calls = im.tool_calls }
  read-blocks im h k =
      rw (text-blocks im.content (map use_of im.tool_calls) Responses.empty_message h)
        (use-blocks im.tool_calls (record Responses.empty_message { content = im.content }) k)

map-object :
    {A : Type 0} (f : A → Fields) (xs : List A) → map (λ x. object (f x)) xs ≡ map object (map f xs)
map-object f [] = refl
map-object f (x ∷ xs) = ap (λ rest. object (f x) ∷ rest) (map-object f xs)

map-join : (a b : List Fields) → map object a ++ map object b ≡ map object (a ++ b)
map-join [] b = refl
map-join (x ∷ a) b = ap (λ rest. object x ∷ rest) (map-join a b)

block_items-objects :
    (blocks : List Fields) → Responses.block_items (Values.items (map object blocks)) ≡ some blocks
unfolding Responses.block_items Values.items
block_items-objects [] = refl
block_items-objects (b ∷ blocks) = rw (block_items-objects blocks) refl

content_blocks_of-written :
    (blocks : List Fields)
    → Responses.content_blocks_of (some (Values.nil_or_array (map object blocks))) ≡ blocks
unfolding Responses.content_blocks_of Values.nil_or_array
content_blocks_of-written [] = refl
content_blocks_of-written (b ∷ blocks) =
    rw (block_items-objects (b ∷ blocks), Responses.content_blocks_of) refl

-- The three reasons that the formats share.
abbrev pub IsSharedReason : String → Type 0
IsSharedReason reason = (reason ≡ "stop") ⊎ (reason ≡ "tool_calls") ⊎ (reason ≡ "length")

reason-written :
    (reason : String)
    → IsSharedReason reason
    → Responses.map_finish_reason_to_internal (Responses.map_finish_reason_from_internal reason)
      ≡ reason
unfolding Responses.map_finish_reason_to_internal Responses.map_finish_reason_from_internal
reason-written reason (inl e) = rw e refl
reason-written reason (inr (inl e)) = rw e refl
reason-written reason (inr (inr e)) = rw e refl

-- An answer of texts and calls that ends for a shared reason.
pub record IsMessagesAnswer (codec : Codec) (ch : InternalChoice) : Type 0 where
  pub content : All IsText ch.message.content
  pub tool_calls : All (IsCanonical codec) ch.message.tool_calls
  pub finish_reason : IsSharedReason ch.finish_reason

-- What is left of an answer with one choice: the Messages API has no place for the rest.
abbrev pub kept : InternalResponse → InternalChoice → InternalResponse
kept resp ch = record {
  id = resp.id;
  model = "";
  choices =
      record {
        index = pos 0;
        message = record Responses.empty_message {
          content = ch.message.content;
          tool_calls = ch.message.tool_calls;
        };
        finish_reason = ch.finish_reason;
      }
      ∷ [];
  usage = resp.usage;
}

answer-written :
    (codec : Codec) (resp : InternalResponse) (ch : InternalChoice)
    → IsMessagesAnswer codec ch
    → Responses.anthropic_response_of codec
        (Responses.anthropic_answer resp ch (map object (blocks_of codec ch.message)))
      ≡ ok (kept resp ch)
unfolding Responses.anthropic_response_of Responses.anthropic_answer Values.read
    Values.decode_counts
answer-written codec resp ch h =
    rw
      (
        Values.decode_int-number "parse anthropic response" resp.usage.prompt_tokens,
        Values.decode_int-number "parse anthropic response" resp.usage.completion_tokens,
        content_blocks_of-written (blocks_of codec ch.message),
        read-blocks codec ch.message h.content h.tool_calls,
        reason-written ch.finish_reason h.finish_reason,
      )
      refl

blocks-written :
    (codec : Codec) (im : InternalMessage)
    → All IsText im.content
    → Responses.answer_blocks im.content ++ map (λ tc. object (use_of codec tc)) im.tool_calls
      ≡ map object (blocks_of codec im)
blocks-written codec im h =
    rw
      (
        blocks-parts im.content h,
        map-object (λ (p : InternalContentPart). Responses.answer_text_block p.content) im.content,
        map-object (use_of codec) im.tool_calls,
      )
      (map-join _ _)

-- An answer with one choice, of texts and of calls whose arguments are JSON as it is printed, that
-- ends for a reason that the formats share: written for the Messages API and read back it has its
-- texts, calls, reason and counts, but neither its model nor the role of its message.
pub anthropic_response_to_internal-internal_to_anthropic_response :
    (codec : Codec) (resp : InternalResponse) (ch : InternalChoice)
    → resp.choices ≡ ch ∷ []
    → IsMessagesAnswer codec ch
    → (Responses.internal_to_anthropic_response codec resp >>= λ body.
        Responses.anthropic_response_to_internal codec body)
      ≡ ok (kept resp ch)
unfolding Responses.internal_to_anthropic_response Responses.anthropic_response_to_internal
anthropic_response_to_internal-internal_to_anthropic_response codec resp ch e h =
    rw
      (
        e,
        uses-calls codec ch.message.tool_calls h.tool_calls,
        blocks-written codec ch.message h.content,
      )
      (answer-written codec resp ch h)
