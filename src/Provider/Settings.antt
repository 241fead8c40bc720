-- ===== src/Provider/Settings.antt =====
-- internal/relay/provider/types.go: the settings of a request, which are all of it but the messages.
use cli_relay.Prelude.{String, Option, none, some, List, [], ◌∷◌, ◌≡◌, ◌⊎◌, All, refl, map}
use cli_relay.Prelude.Int.{ℤ}
use cli_relay.Json.{null, text}
use cli_relay.Provider.Internal.{InternalRequest, InternalToolChoice}
use cli_relay.Provider.Values
use cli_relay.Provider.OpenAi.Build.{some_array, some_number}

pub record HasSameSettings (a b : InternalRequest) : Type 0 where
  pub model : a.model ≡ b.model
  pub tools : a.tools ≡ b.tools
  pub tool_choice : a.tool_choice ≡ b.tool_choice
  pub stream : a.stream ≡ b.stream
  pub max_tokens : a.max_tokens ≡ b.max_tokens
  pub temperature : a.temperature ≡ b.temperature
  pub top_p : a.top_p ≡ b.top_p
  pub stop_words : a.stop_words ≡ b.stop_words

-- One of the four choices that the formats share.
abbrev pub IsKnownChoice : Option InternalToolChoice → Type 0
IsKnownChoice none = Unit
IsKnownChoice (some choice) =
    (choice ≡ record { type = "auto"; function = "" })
    ⊎ (choice ≡ record { type = "none"; function = "" })
    ⊎ (choice ≡ record { type = "required"; function = "" })
    ⊎ (choice.type ≡ "function")

-- What the formats can say of tools: functions, and a known choice of them.
pub record IsPortable (req : InternalRequest) : Type 0 where
  pub tools : All (λ tool. tool.type ≡ "function") req.tools
  pub tool_choice : IsKnownChoice req.tool_choice

pub stops-written :
    (stops : List String)
    → Values.texts (Values.as_list (Values.or_json (some_array (map text stops)) null)) ≡ stops
unfolding some_array Values.as_list Values.texts
stops-written [] = refl
stops-written (s ∷ stops) = rw Values.elements-items (Values.texts-map (s ∷ stops))

pub number-written : (x : Option ℤ) → Values.as_number? (Values.or_json (some_number x) null) ≡ x
number-written none = refl
number-written (some x) = refl
