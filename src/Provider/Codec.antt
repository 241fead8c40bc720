-- ===== src/Provider/Codec.antt =====
-- What the conversions of internal/relay/provider take of packages `encoding/json`, `crypto/rand`
-- and `strings`: the text of a JSON value, the value of a text, random names, and joined lines.
use cli_relay.Prelude.{ℕ, String, Option, none, some, List}
use cli_relay.Prelude.Text.{append}
use cli_relay.Json.{Json, Fields, null, object, end}

-- `json.Marshal`, and `json.Unmarshal` into `interface{}`, which fails on a text that is no JSON.
pub record Codec : Type 0 where
  pub marshal : Json → String
  pub unmarshal : String → Option Json

-- `provider.RandomHex(n)`, at its k-th call.
abbrev pub RandomHex : Type 0
RandomHex = ℕ → ℕ → String

-- What `args := map[string]interface{}{}` holds after `json.Unmarshal(text, &args)`, whose error is
-- dropped: `null` makes the map nil, and a value of another type leaves it empty.
abbrev pub map_or_empty : Option Json → Json
map_or_empty (some (object fs)) = object fs
map_or_empty (some null) = null
map_or_empty _ = object end

-- What `var m map[string]interface{}` holds after `json.Unmarshal(text, &m)`, or none on an error.
abbrev pub decoded_map : Option Json → Option Fields
decoded_map (some (object fs)) = some fs
decoded_map (some null) = some end
decoded_map _ = none

-- `strings.Join(parts, "\n")`
unfoldable pub join_lines : List String → String
unfolding append
join_lines List.[] = ""
join_lines (List.◌∷◌ part List.[]) = part
join_lines (List.◌∷◌ part (List.◌∷◌ next parts)) =
    append part (append "\n" (join_lines (List.◌∷◌ next parts)))
