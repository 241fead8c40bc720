-- ===== src/Provider/OpenAi/Requests.antt =====
-- internal/relay/provider/openai/to_internal.go: a request that is written for the Chat Completions
-- API and read back.
use cli_relay.Prelude.{
  String, true, Option, none, some, List, [], ◌∷◌, map, ◌≡◌, ◌⊎◌, inl, inr, refl, ap, ap₂, sym, All,
}
use cli_relay.Prelude.Int.{ℤ, pos, ◌<ℤ◌}
use cli_relay.Prelude.Results.{ok, ◌>>=◌}
use cli_relay.Json.{null, text}
use cli_relay.Provider.Internal.{
  InternalRequest, InternalMessage, InternalTool, InternalToolChoice, request_ext,
}
use cli_relay.Provider.Values
use cli_relay.Provider.OpenAi.Parse
use cli_relay.Provider.OpenAi.Build
use cli_relay.Provider.OpenAi.Messages.{IsMessage, parse_message-build, as_list-some_array}

abbrev pub IsChoice : Option InternalToolChoice → Type 0
IsChoice none = Unit
IsChoice (some choice) =
    ((Build.is_mode choice.type ≡ true) × (choice.function ≡ "")) ⊎ (choice.type ≡ "function")

abbrev pub IsBound : Option ℤ → Type 0
IsBound none = Unit
IsBound (some n) = pos 0 <ℤ n

-- A request that the Chat Completions API can express.
pub record IsChatRequest (req : InternalRequest) : Type 0 where
  pub messages : All IsMessage req.messages
  pub tools : All (λ tool. tool.type ≡ "function") req.tools
  pub tool_choice : IsChoice req.tool_choice
  pub max_tokens : IsBound req.max_tokens

messages-build :
    (ims : List InternalMessage)
    → All IsMessage ims
    → map Parse.parse_open_ai_message (map Build.build_open_ai_message ims) ≡ ims
messages-build [] h = refl
messages-build (im ∷ ims) (hm, h) =
    ap₂ (λ a rest. a ∷ rest) (parse_message-build im hm) (messages-build ims h)

tool-build :
    (tool : InternalTool)
    → tool.type ≡ "function"
    → Parse.parse_open_ai_tool (Build.build_open_ai_tool tool) ≡ tool
unfolding Values.read
tool-build tool e = λ i. record {
  type = sym e i;
  name = tool.name;
  description = tool.description;
  parameters = tool.parameters;
}

tools-build :
    (tools : List InternalTool)
    → All (λ tool. tool.type ≡ "function") tools
    → map Parse.parse_open_ai_tool (map Build.build_open_ai_tool tools) ≡ tools
tools-build [] h = refl
tools-build (tool ∷ tools) (e, h) =
    ap₂ (λ a rest. a ∷ rest) (tool-build tool e) (tools-build tools h)

choice-build :
    (choice : Option InternalToolChoice)
    → IsChoice choice
    → Parse.parse_choice_with Parse.parse_open_ai_tool_choice
        (Build.build_open_ai_tool_choice choice)
      ≡ choice
unfolding Parse.parse_open_ai_tool_choice Values.read Build.build_open_ai_tool_choice
choice-build none h = refl
choice-build (some choice) (inl (e, f)) = rw (e, f) refl
choice-build (some choice) (inr e) = rw e refl

stop-build :
    (stops : List String)
    → Parse.parse_stop (Values.or_json (Build.some_array (map text stops)) null) ≡ stops
unfolding Build.some_array
stop-build [] = refl
stop-build (s ∷ stops) = rw Values.elements-items (Values.texts-map (s ∷ stops))

bound-build :
    (n : Option ℤ)
    → IsBound n
    → Values.as_positive_int? (Values.or_json (Build.some_int n) null) ≡ n
bound-build none h = refl
bound-build (some n) h = Values.as_positive_int?-number n h

number-build : (x : Option ℤ) → Values.as_number? (Values.or_json (Build.some_number x) null) ≡ x
number-build none = refl
number-build (some x) = refl

-- A parsed choice of tools, where the key was written only for some.
member-choice :
    (choice : Option InternalToolChoice)
    → Values.later_or (Build.build_open_ai_tool_choice choice) none
      ≡ Build.build_open_ai_tool_choice choice
unfolding Build.build_open_ai_tool_choice
member-choice none = refl
member-choice (some choice) = refl

request :
    (req : InternalRequest)
    → IsChatRequest req
    → Parse.open_ai_request_of (Build.open_ai_request req) ≡ req
unfolding Parse.open_ai_request_of Build.open_ai_request
request req h =
    request_ext (simp Values.fields)
      (simp Values.fields (
        rw (Values.as_list-items, Values.objects-map Build.build_open_ai_message)
          (messages-build req.messages h.messages)))
      (simp (Values.fields, as_list-some_array)
        (rw (Values.objects-map Build.build_open_ai_tool) (tools-build req.tools h.tools)))
      (simp (Values.fields, member-choice) (choice-build req.tool_choice h.tool_choice))
      (simp Values.fields) (simp Values.fields (bound-build req.max_tokens h.max_tokens))
      (simp Values.fields (number-build req.temperature))
      (simp Values.fields (number-build req.top_p)) (simp Values.fields (stop-build req.stop_words))

-- A request that the Chat Completions API can express is read back from the body that is written
-- for it, with every message, tool call, tool, bound and stop word.
pub open_ai_chat_to_internal-internal_to_open_ai_chat :
    (req : InternalRequest)
    → IsChatRequest req
    → (Build.internal_to_open_ai_chat req >>= λ body. Parse.open_ai_chat_to_internal body) ≡ ok req
unfolding Build.internal_to_open_ai_chat Parse.open_ai_chat_to_internal
open_ai_chat_to_internal-internal_to_open_ai_chat req h = ap (λ r. ok r) (request req h)
