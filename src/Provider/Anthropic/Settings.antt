-- ===== src/Provider/Anthropic/Settings.antt =====
-- internal/relay/provider/anthropic: the settings of a request that is written for the Messages API
-- and read back.
use cli_relay.Prelude.{
  Option, none, some, List, [], ◌∷◌, map, ◌≡◌, refl, sym, subst, ap₂, All, arith, inl, inr,
}
use cli_relay.Prelude.Int.{ℤ, pos, ◌<ℤ◌}
use cli_relay.Prelude.Results.{ok, >>=-ok}
use cli_relay.Json.{Json, null, text, array, object}
use cli_relay.Relay.Http.{Body, json}
use cli_relay.Provider.Internal.{InternalRequest, InternalTool, InternalToolChoice, tool_ext}
use cli_relay.Provider.Codec.{Codec}
use cli_relay.Provider.Values
use cli_relay.Provider.Settings.{
  HasSameSettings, IsKnownChoice, IsPortable, stops-written, number-written,
}
use cli_relay.Provider.OpenAi.Messages.{as_list-some_array}
use cli_relay.Provider.OpenAi.Parse.{parse_choice_with}
use cli_relay.Provider.Anthropic.Parse
use cli_relay.Provider.Anthropic.Build

anthropic_max_tokens-positive : (n : Option ℤ) → pos 0 <ℤ Build.anthropic_max_tokens n
unfolding Build.anthropic_max_tokens
anthropic_max_tokens-positive none = omega arith
anthropic_max_tokens-positive (some n) = ground arith

pub or_json-unless_nil : (v : Json) → Values.or_json (Build.unless_nil v) null ≡ v
or_json-unless_nil null = refl
or_json-unless_nil (text s) = refl
or_json-unless_nil (array vs) = refl
or_json-unless_nil (object fs) = refl
or_json-unless_nil (Json.boolean b) = refl
or_json-unless_nil (Json.number x) = refl

tool-written :
    (tool : InternalTool)
    → tool.type ≡ "function"
    → Parse.parse_anthropic_tool (Build.build_anthropic_tool tool) ≡ tool
unfolding Build.build_anthropic_tool
tool-written tool e =
    tool_ext (sym e) (simp Values.fields (unfold Values.read in refl))
      (simp Values.fields (unfold Values.read in refl))
      (simp Values.fields (unfold Values.read in or_json-unless_nil tool.parameters))

choice-written :
    (choice : Option InternalToolChoice)
    → IsKnownChoice choice
    → parse_choice_with Parse.parse_anthropic_tool_choice
        (Build.some_choice Build.build_anthropic_tool_choice choice)
      ≡ choice
unfolding Parse.parse_anthropic_tool_choice Build.build_anthropic_tool_choice Values.read
choice-written none h = refl
choice-written (some choice) (inl e) = rw e refl
choice-written (some choice) (inr (inl e)) = rw e refl
choice-written (some choice) (inr (inr (inl e))) = rw e refl
choice-written (some choice) (inr (inr (inr e))) = rw e refl

tools-written :
    (tools : List InternalTool)
    → All (λ tool. tool.type ≡ "function") tools
    → map Parse.parse_anthropic_tool (map Build.build_anthropic_tool tools) ≡ tools
tools-written [] h = refl
tools-written (tool ∷ tools) (e, h) =
    ap₂ (λ a rest. a ∷ rest) (tool-written tool e) (tools-written tools h)

member-choice :
    (choice : Option InternalToolChoice)
    → Values.later_or (Build.some_choice Build.build_anthropic_tool_choice choice) none
      ≡ Build.some_choice Build.build_anthropic_tool_choice choice
member-choice none = refl
member-choice (some choice) = refl

-- The bound that the Messages API is given.
abbrev pub bounded : InternalRequest → InternalRequest
bounded req = record req { max_tokens = some (Build.anthropic_max_tokens req.max_tokens) }

fields-written :
    (codec : Codec) (req : InternalRequest) (msgs : List Json)
    → IsPortable req
    → HasSameSettings
        (Parse.anthropic_request_of codec (Build.anthropic_fields req msgs))
        (bounded req)
unfolding Parse.anthropic_request_of Build.anthropic_fields
fields-written codec req msgs h = record {
  model = simp Values.fields;
  tools =
      simp (Values.fields, as_list-some_array)
        (rw (Values.objects-map Build.build_anthropic_tool) (tools-written req.tools h.tools));
  tool_choice = simp (Values.fields, member-choice) (choice-written req.tool_choice h.tool_choice);
  stream = simp Values.fields;
  max_tokens = simp Values.fields (
      Values.as_positive_int?-number (Build.anthropic_max_tokens req.max_tokens)
        (anthropic_max_tokens-positive req.max_tokens));
  temperature = simp Values.fields (number-written req.temperature);
  top_p = simp Values.fields (number-written req.top_p);
  stop_words = simp Values.fields (stops-written req.stop_words);
}

-- A request whose tools are functions and whose choice of them is known, written for the Messages API
-- and read back, has the settings it had: the same model, tools, choice, temperature and stop words,
-- and a bound on the tokens, which is 4096 where it had none.
pub anthropic_to_internal-internal_to_anthropic :
    (codec : Codec) (req : InternalRequest) (body : Body)
    → IsPortable req
    → Build.internal_to_anthropic codec req ≡ ok body
    → (back : InternalRequest) × (Parse.anthropic_to_internal codec body ≡ ok back)
      × HasSameSettings back (bounded req)
unfolding Parse.anthropic_to_internal Build.internal_to_anthropic
anthropic_to_internal-internal_to_anthropic codec req body h e =
    let (msgs, f, g) =
      >>=-ok (Build.anthropic_messages codec req.messages)
        (λ msgs. json (object (Build.anthropic_fields req msgs))) body e in
    let back = Parse.anthropic_request_of codec (Build.anthropic_fields req msgs) in
    (
      back,
      subst (λ b. Parse.anthropic_to_internal codec b ≡ ok back) g refl,
      fields-written codec req msgs h,
    )
