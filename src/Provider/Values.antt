-- ===== src/Provider/Values.antt =====
-- Values of type `interface{}` as the conversions of internal/relay/provider read and build them:
-- type assertions that leave the zero value, and maps of type `map[string]interface{}`.
use cli_relay.Prelude.{
  String, Bool, false, Option, none, some, List, [], ◌∷◌, ◌≡◌, refl, ap, if◌then◌else◌, ◌==◌, arith,
  eq_iff, map,
}
use cli_relay.Prelude.Int.{ℤ, pos, ltb_ℤ, eqb_ℤ, ◌*ℤ◌, ◌<ℤ◌, negsuc}
use cli_relay.Prelude.Results.{Result, ok, err, ◌>>=◌}
use cli_relay.Relay.Http.{Body, json}
use cli_relay.Json.{
  Json, null, boolean, number, text, array, object, Items, nil, cons, Fields, end, field, to_int,
  of_int,
}

-- `s, _ := v.(string)`, which `intfStr` is too.
abbrev pub as_text : Json → String
as_text (text s) = s
as_text _ = ""

abbrev pub as_text? : Json → Option String
as_text? (text s) = some s
as_text? _ = none

-- `v.(float64)`
abbrev pub as_number? : Json → Option ℤ
as_number? (number x) = some x
as_number? _ = none

-- `if v, ok := x.(float64); ok { n = int(v) }`
abbrev pub as_int : Json → ℤ
as_int (number x) = to_int x
as_int _ = pos 0

-- `if v, ok := x.(float64); ok && v > 0 { tokens := int(v); p = &tokens }`
abbrev pub as_positive_int? : Json → Option ℤ
as_positive_int? (number x) = if ltb_ℤ (pos 0) x then some (to_int x) else none
as_positive_int? _ = none

-- `if s, ok := x.(bool); ok { b = s }`
abbrev pub as_bool : Json → Bool
as_bool (boolean b) = b
as_bool _ = false

-- `v.(map[string]interface{})`
abbrev pub as_object? : Json → Option Fields
as_object? (object fs) = some fs
as_object? _ = none

abbrev pub as_object : Json → Fields
as_object (object fs) = fs
as_object _ = end

-- `json.Unmarshal(body, &m)` into a map; `null` leaves the map nil.
abbrev pub decode_map : String → Body → Result Fields
decode_map context (json (object fs)) = ok fs
decode_map context (json null) = ok end
decode_map context _ = err context

-- The fields of a struct, where `null` leaves the zero value and another type is an error.
abbrev pub decode_text : String → Json → Result String
decode_text context (text s) = ok s
decode_text context null = ok ""
decode_text context _ = err context

abbrev pub decode_struct : String → Json → Result Fields
decode_struct context (object fs) = ok fs
decode_struct context null = ok end
decode_struct context _ = err context

-- A number that is no integer does not fit an `int`.
abbrev pub decode_int : String → Json → Result ℤ
decode_int context (number x) = let n = to_int x in if eqb_ℤ (of_int n) x then ok n else err context
decode_int context null = ok (pos 0)
decode_int context _ = err context

unfoldable pub elements : Items → List Json
elements nil = []
elements (cons v vs) = v ∷ elements vs

unfoldable pub items : List Json → Items
items [] = nil
items (v ∷ vs) = cons v (items vs)

-- The elements of `v.([]interface{})`.
unfoldable pub as_list : Json → List Json
unfolding elements
as_list (array vs) = elements vs
as_list _ = []

-- `list` as a value that may be nil, which `json.Marshal` writes as `null`.
unfoldable pub nil_or_array : List Json → Json
unfolding items
nil_or_array [] = null
nil_or_array (v ∷ vs) = array (items (v ∷ vs))

-- The loops that skip what is not a map, and those that skip what is not a string.
abbrev cons_object : Json → List Fields → List Fields
cons_object (object fs) rest = fs ∷ rest
cons_object _ rest = rest

unfoldable pub objects : List Json → List Fields
objects [] = []
objects (v ∷ vs) = cons_object v (objects vs)

abbrev cons_text : Json → List String → List String
cons_text (text s) rest = s ∷ rest
cons_text _ rest = rest

unfoldable pub texts : List Json → List String
texts [] = []
texts (v ∷ vs) = cons_text v (texts vs)

-- `v, ok := m[key]`: the last of the members that decoding found.
abbrev pub later_or {ℓ} : {A : Type ℓ} → Option A → Option A → Option A
later_or (some v) earlier = some v
later_or none earlier = earlier

unfoldable pub member : String → Fields → Option Json
member wanted end = none
member wanted (field name value fs) =
    later_or (member wanted fs) (if name == wanted then some value else none)

abbrev pub or_json : Option Json → Json → Json
or_json (some v) other = v
or_json none other = other

-- `m[key]`, nil where the key is missing.
unfoldable pub read : String → Fields → Json
unfolding member
read wanted fs = or_json (member wanted fs) null

-- A struct whose field `outer` is a struct with two counts.
unfoldable pub decode_counts : String → String → String → String → Fields → Result (ℤ × ℤ)
unfolding read
decode_counts context outer first second fs = decode_struct context (read outer fs) >>= λ usage.
    decode_int context (read first usage) >>= λ a.
    decode_int context (read second usage) >>= λ b. ok (a, b)

-- `m[key] = value`
unfoldable pub put : String → Json → Fields → Fields
put written new end = field written new end
put written new (field name old fs) =
    let rest = put written new fs in if name == written then rest else field name old rest

-- `if p != nil { m[key] = *p }`
unfoldable pub put_some : String → Option Json → Fields → Fields
unfolding put
put_some written none fs = fs
put_some written (some new) fs = put written new fs

-- A composite literal with one, two or three keys.
abbrev pub one : String → Json → Fields
one k v = field k v end

abbrev pub with_type : String → Fields → Json
with_type type fs = object (field "type" (text type) fs)

pub member-put :
    (written wanted : String) (new : Json) (fs : Fields)
    → member wanted (put written new fs)
      ≡ (if written == wanted then some new else member wanted fs)
unfolding member put
member-put written wanted new end = refl
member-put written wanted new (field name old fs) =
    let ih = member-put written wanted new fs in
    ground (arith, ih, eq_iff name wanted, eq_iff name written, eq_iff written wanted)

pub member-put_some :
    (written wanted : String) (new : Option Json) (fs : Fields)
    → member wanted (put_some written new fs)
      ≡ (if written == wanted then later_or new (member wanted fs) else member wanted fs)
unfolding put_some
member-put_some written wanted none fs = ground arith
member-put_some written wanted (some new) fs = member-put written wanted new fs

pub read-put :
    (written wanted : String) (new : Json) (fs : Fields)
    → read wanted (put written new fs) ≡ (if written == wanted then new else read wanted fs)
unfolding read
read-put written wanted new fs = ground (arith, member-put written wanted new fs)

pub read-put_some :
    (written wanted : String) (new : Option Json) (fs : Fields)
    → read wanted (put_some written new fs)
      ≡ (if written == wanted then or_json new (read wanted fs) else read wanted fs)
unfolding read
read-put_some written wanted none fs = unfold put_some in ground arith
read-put_some written wanted (some new) fs = unfold put_some in read-put written wanted new fs

pub elements-items : (vs : List Json) → elements (items vs) ≡ vs
unfolding elements items
elements-items [] = refl
elements-items (v ∷ vs) = ap (λ rest. v ∷ rest) (elements-items vs)

pub as_list-items : (vs : List Json) → as_list (array (items vs)) ≡ vs
unfolding as_list
as_list-items vs = elements-items vs

pub as_list-nil_or_array : (vs : List Json) → as_list (nil_or_array vs) ≡ vs
unfolding nil_or_array as_list
as_list-nil_or_array [] = refl
as_list-nil_or_array (v ∷ vs) = elements-items (v ∷ vs)

pub texts-map : (ss : List String) → texts (map text ss) ≡ ss
unfolding texts
texts-map [] = refl
texts-map (s ∷ ss) = ap (λ rest. s ∷ rest) (texts-map ss)

module _ {ℓ} {A : Type ℓ} (build : A → Fields) where
  pub objects-map : (xs : List A) → objects (map (λ x. object (build x)) xs) ≡ map build xs
  unfolding objects
  objects-map [] = refl
  objects-map (x ∷ xs) = ap (λ rest. build x ∷ rest) (objects-map xs)

-- An `int` is read from the number that was written for it.
pub to_int-of_int : (n : ℤ) → to_int (of_int n) ≡ n
unfolding ◌*ℤ◌
to_int-of_int (pos n) = ground arith
to_int-of_int (negsuc n) = ground arith

pub decode_int-number : (context : String) (n : ℤ) → decode_int context (number (of_int n)) ≡ ok n
decode_int-number context n = rw (to_int-of_int n) (ground arith)

pub as_positive_int?-number : (n : ℤ) → pos 0 <ℤ n → as_positive_int? (number (of_int n)) ≡ some n
unfolding ◌*ℤ◌
as_positive_int?-number (pos n) h = ground arith
as_positive_int?-number (negsuc n) h = ground arith

pub read-one :
    (name wanted : String) (v : Json)
    → read wanted (field name v end) ≡ (if name == wanted then v else null)
unfolding read
read-one name wanted v = ground arith

pub member-one :
    (name wanted : String) (v : Json)
    → member wanted (field name v end) ≡ (if name == wanted then some v else none)
unfolding member
member-one name wanted v = refl

pub member-end : (wanted : String) → member wanted end ≡ none
unfolding member
member-end wanted = refl

pub read-end : (wanted : String) → read wanted end ≡ null
unfolding read
read-end wanted = refl

pub ruleset fields = (
  member-put, member-put_some, read-put, read-put_some, read-one, read-end, member-one, member-end,
)
