-- ===== src/Provider/Total.antt =====
-- internal/relay/provider/convert.go: which requests of the Chat Completions API are converted for the
-- Messages API.
use cli_relay.Prelude.{
  String, Bool, true, false, List, [], ◌∷◌, map, ◌≡◌, refl, ap₂, sym, subst, All, arith, is_some,
  ◌&&◌, ◌==◌, eq_iff, if◌then◌else◌, Bool-cases, inl, inr,
}
use cli_relay.Prelude.Results.{Result, ok, err, ◌>>=◌, is_ok}
use cli_relay.Json.{object, Fields}
use cli_relay.Relay.Http.{json}
use cli_relay.Relay.Access.{openai_chat, anthropic}
use cli_relay.Provider.Internal.{InternalRequest, InternalMessage, InternalToolCall}
use cli_relay.Provider.Codec.{Codec, RandomHex}
use cli_relay.Provider.OpenAi.Parse
use cli_relay.Provider.Anthropic.Build
use cli_relay.Provider.Convert.{convert_request}

is_ok-cons :
    {A : Type 0} (first : Result A) (rest : Result (List A))
    → is_ok (first >>= λ a. rest >>= λ others. ok (a ∷ others)) ≡ (is_ok first && is_ok rest)
is_ok-cons (err message) rest = refl
is_ok-cons (ok a) (err message) = refl
is_ok-cons (ok a) (ok others) = refl

system-assistant : (role : String) → (role == "system") ≡ true → (role == "assistant") ≡ false
system-assistant role e =
    subst (λ r. (r == "assistant") ≡ false) (sym ((eq_iff role "system").0 e)) refl

module _ (codec : Codec) where
  -- The arguments of every call are JSON.
  abbrev pub readable_calls : List InternalToolCall → Bool
  readable_calls [] = true
  readable_calls (call ∷ calls) = is_some (codec.unmarshal call.arguments) && readable_calls calls

  abbrev pub readable : List InternalMessage → Bool
  readable [] = true
  readable (im ∷ ims) =
      (if im.role == "assistant" then readable_calls im.tool_calls else true) && readable ims

  is_ok-tool_use_blocks :
      (calls : List InternalToolCall)
      → is_ok (Build.tool_use_blocks codec calls) ≡ readable_calls calls
  unfolding Build.tool_use_blocks
  is_ok-tool_use_blocks [] = refl
  is_ok-tool_use_blocks (call ∷ calls) = ground (arith, is_ok-tool_use_blocks calls)

  abbrev HasAnswer : InternalMessage → Type 0
  HasAnswer im = (im.role == "tool") ≡ true → is_some im.tool_result ≡ true

  is_ok-build :
      (im : InternalMessage)
      → HasAnswer im
      → (im.role == "system") ≡ false
      → is_ok (Build.build_anthropic_message codec im)
        ≡ (if im.role == "assistant" then readable_calls im.tool_calls else true)
  unfolding Build.build_anthropic_message Build.build_anthropic_tool_result
      Build.build_anthropic_assistant_message
  is_ok-build im h e = ground (
    arith,
    is_ok-tool_use_blocks im.tool_calls,
    eq_iff im.role "tool",
    eq_iff im.role "assistant",
    eq_iff "tool" "assistant",
  )

  is_ok-messages :
      (ims : List InternalMessage)
      → All HasAnswer ims
      → is_ok (Build.anthropic_messages codec ims) ≡ readable ims
  unfolding Build.anthropic_messages
  is_ok-messages [] h = refl
  is_ok-messages (im ∷ ims) (hm, h) = elim (Bool-cases (im.role == "system")) [
    | inl e ↦ rw (e, system-assistant im.role e) (is_ok-messages ims h)
    | inr e ↦
        rw
          (
            e,
            is_ok-cons (Build.build_anthropic_message codec im)
                (Build.anthropic_messages codec ims),
          )
          (ap₂ (λ a b. a && b) (is_ok-build im hm e) (is_ok-messages ims h))
  ]

  is_ok-internal :
      (req : InternalRequest)
      → All HasAnswer req.messages
      → is_ok (Build.internal_to_anthropic codec req) ≡ readable req.messages
  unfolding Build.internal_to_anthropic
  is_ok-internal req h = ground (arith, is_ok-messages req.messages h)

  parse-HasAnswer : (msg : Fields) → HasAnswer (Parse.parse_open_ai_message msg)
  unfolding Parse.parse_open_ai_message
  parse-HasAnswer msg = ground arith

  parse_all-HasAnswer : (msgs : List Fields) → All HasAnswer (map Parse.parse_open_ai_message msgs)
  parse_all-HasAnswer [] = tt
  parse_all-HasAnswer (msg ∷ msgs) = (parse-HasAnswer msg, parse_all-HasAnswer msgs)

-- A request body of the Chat Completions API is converted for the Messages API exactly when the
-- arguments of every tool call of an assistant are JSON; in particular no nil pointer is followed.
pub is_ok-convert_request :
    (codec : Codec) (random_hex : RandomHex) (fs : Fields)
    → is_ok (convert_request codec random_hex openai_chat anthropic (json (object fs)))
      ≡ readable codec (Parse.open_ai_request_of fs).messages
unfolding convert_request Parse.open_ai_chat_to_internal
is_ok-convert_request codec random_hex fs =
    is_ok-internal codec (Parse.open_ai_request_of fs)
      (unfold Parse.open_ai_request_of in parse_all-HasAnswer codec _)
