-- ===== src/Json.antt =====
-- The values that `encoding/json` decodes into `interface{}`. A number is a float64: it stands here
-- as a count of millionths, so that sums are exact and the rounding of binary fractions is left out.
use cli_relay.Prelude.{ℕ, String, Bool, List, [], ◌∷◌, ◌^◌}
use cli_relay.Prelude.Int.{ℤ, pos, ◌*ℤ◌, quot_ℕ}
use cli_relay.Prelude.Maps.{insert}

mutual
  pub data Json : Type 0 where
    null : Json
    boolean : Bool → Json
    number : ℤ → Json
    text : String → Json
    array : Items → Json
    object : Fields → Json

  pub data Items : Type 0 where
    nil : Items
    cons : Json → Items → Items

  pub data Fields : Type 0 where
    end : Fields
    field : String → Json → Fields → Fields

abbrev pub unit : ℕ
unit = 10 ^ 6

-- `float64(n)`
abbrev pub of_int : ℤ → ℤ
of_int n = n *ℤ pos unit

-- `int(f)`, which truncates.
abbrev pub to_int : ℤ → ℤ
to_int f = quot_ℕ f unit

-- Decoding into a map keeps the last value of a key.
abbrev pub decode_fields : List (String × Json) → Fields → List (String × Json)
decode_fields m end = m
decode_fields m (field k v fs) = decode_fields (insert k v m) fs

abbrev pub encode_fields : List (String × Json) → Fields
encode_fields [] = end
encode_fields ((k, v) ∷ m) = field k v (encode_fields m)
