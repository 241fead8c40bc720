-- ===== src/Provider/Gemini/Settings.antt =====
-- internal/relay/provider/gemini: the settings of a request that is written for `generateContent` and
-- read back. The model and the stream flag go into the URL.
use cli_relay.Prelude.{
  Option, none, some, List, [], ◌∷◌, map, ◌≡◌, refl, sym, ap₂, All, arith, inl, inr, true, false,
}
use cli_relay.Prelude.Int.{ℤ, pos, ltb_ℤ}
use cli_relay.Prelude.Results.{ok, ◌>>=◌}
use cli_relay.Json.{null, Fields, end, field}
use cli_relay.Provider.Internal.{InternalRequest, InternalTool, InternalToolChoice, tool_ext}
use cli_relay.Provider.Codec.{Codec, RandomHex}
use cli_relay.Provider.Values
use cli_relay.Provider.Settings.{
  HasSameSettings, IsKnownChoice, IsPortable, stops-written, number-written,
}
use cli_relay.Provider.Anthropic.Settings.{or_json-unless_nil}
use cli_relay.Provider.Anthropic.Build.{some_choice}
use cli_relay.Provider.Gemini.Parse
use cli_relay.Provider.Gemini.Build

-- A bound that is no positive number is left out.
abbrev pub positive : Option ℤ → Option ℤ
positive none = none
positive (some n) = elim (ltb_ℤ (pos 0) n) [ true ↦ some n | false ↦ none ]

bound-written :
    (n : Option ℤ)
    → Values.as_positive_int? (Values.or_json (Build.positive_int n) null) ≡ positive n
unfolding Build.positive_int
bound-written none = refl
bound-written (some n) = ground (arith, Values.as_positive_int?-number n)

tool-written :
    (tool : InternalTool)
    → tool.type ≡ "function"
    → Parse.parse_declaration (Build.build_declaration tool) ≡ tool
unfolding Build.build_declaration
tool-written tool e =
    tool_ext (sym e) (simp Values.fields (unfold Values.read in refl))
      (simp Values.fields (unfold Values.read in refl))
      (simp Values.fields (unfold Values.read in or_json-unless_nil tool.parameters))

tools-written :
    (tools : List InternalTool)
    → All (λ tool. tool.type ≡ "function") tools
    → map Parse.parse_declaration (map Build.build_declaration tools) ≡ tools
tools-written [] h = refl
tools-written (tool ∷ tools) (e, h) =
    ap₂ (λ a rest. a ∷ rest) (tool-written tool e) (tools-written tools h)

declared :
    (tools : List InternalTool)
    → All (λ tool. tool.type ≡ "function") tools
    → Parse.parse_gemini_tools (Values.or_json (Build.declarations_of tools) null) ≡ tools
unfolding Parse.parse_gemini_tools
declared [] h = unfold Values.read Values.as_list Values.objects in refl
declared (tool ∷ tools) h =
    simp (Values.as_list-items, Values.read-one)
      (rw (Values.objects-map Build.build_declaration) (tools-written (tool ∷ tools) h))

choice-written :
    (choice : Option InternalToolChoice)
    → IsKnownChoice choice
    → Parse.parse_config_with Parse.parse_gemini_tool_config (
        Values.as_object? (Values.or_json (some_choice Build.build_gemini_tool_config choice) null))
      ≡ choice
unfolding Parse.parse_gemini_tool_config Build.build_gemini_tool_config Values.read Values.as_list
choice-written none h = refl
choice-written (some choice) (inl e) = rw e refl
choice-written (some choice) (inr (inl e)) = rw e refl
choice-written (some choice) (inr (inr (inl e))) = rw e refl
choice-written (some choice) (inr (inr (inr e))) = rw e refl

-- A map that is empty is not written, and read as one that is missing.
config-written : (fs : Fields) → Values.as_object (Values.or_json (Build.unless_empty fs) null) ≡ fs
config-written end = refl
config-written (field k v fs) = refl

-- What `generateContent` is told: the URL holds the rest.
abbrev pub told : InternalRequest → InternalRequest
told req = record req { model = ""; stream = false; max_tokens = positive req.max_tokens }

settings :
    (codec : Codec) (random_hex : RandomHex) (req : InternalRequest)
    → IsPortable req
    → HasSameSettings
        (Parse.gemini_request_of codec random_hex (Build.gemini_request codec req))
        (told req)
unfolding Parse.gemini_request_of Build.gemini_request Build.generation_config
settings codec random_hex req h = record {
  model = simp Values.fields;
  tools = simp Values.fields (declared req.tools h.tools);
  tool_choice = simp Values.fields (choice-written req.tool_choice h.tool_choice);
  stream = refl;
  max_tokens = simp (Values.fields, config-written) (bound-written req.max_tokens);
  temperature = simp (Values.fields, config-written) (number-written req.temperature);
  top_p = simp (Values.fields, config-written) (number-written req.top_p);
  stop_words = simp (Values.fields, config-written) (stops-written req.stop_words);
}

-- A request whose tools are functions and whose choice of them is known, written for
-- `generateContent` and read back, has the tools, choice, temperature and stop words it had, and its
-- bound on the tokens where that is positive.
pub gemini_to_internal-internal_to_gemini :
    (codec : Codec) (random_hex : RandomHex) (req : InternalRequest)
    → IsPortable req
    → (back : InternalRequest) × ((Build.internal_to_gemini codec req >>= λ body.
          Parse.gemini_to_internal codec random_hex body)
        ≡ ok back)
      × HasSameSettings back (told req)
unfolding Build.internal_to_gemini Parse.gemini_to_internal
gemini_to_internal-internal_to_gemini codec random_hex req h = (
  Parse.gemini_request_of codec random_hex (Build.gemini_request codec req),
  refl,
  settings codec random_hex req h,
)
