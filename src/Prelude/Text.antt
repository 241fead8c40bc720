-- ===== src/Prelude/Text.antt =====
-- The functions of Go's `strings` package that the program uses. A string is a text of code points:
-- its bytes, where it is ASCII.
use Prim.Native.Char.{Char, code}
use Prim.Native.Nat.{ℕ, zero, suc, ◌+◌}
use Prim.Native.String.{String, [], ◌∷◌}
use mathlib.Core.Bool.{Bool, true, false, ◌&&◌, ◌||◌}
use mathlib.Core.List.{List}
use mathlib.Core.Option.{Option, none, some}
use mathlib.Core.Path.{◌≡◌, refl, ap}
use text.Mathlib.Text.{◌==◌}
use cli_relay.Prelude.Tests.{leb, if◌then◌else◌, is_some}

-- `unicode.IsSpace`
abbrev pub is_space : Char → Bool
is_space c =
    let n = code c in
    (leb 9 n && leb n 13)
    || (leb 32 n && leb n 32)
    || (leb 133 n && leb n 133)
    || (leb 160 n && leb n 160)
    || (leb 5760 n && leb n 5760)
    || (leb 8192 n && leb n 8202)
    || (leb 8232 n && leb n 8233)
    || (leb 8239 n && leb n 8239)
    || (leb 8287 n && leb n 8287)
    || (leb 12288 n && leb n 12288)

unfoldable pub trim_left : String → String
trim_left [] = ""
trim_left (c ∷ s) = if is_space c then trim_left s else c ∷ s

-- One round of `trim_right`: a space is dropped where nothing is left behind it.
abbrev pub trim_cons : Char → String → String
trim_cons c [] = if is_space c then "" else c ∷ []
trim_cons c (d ∷ s) = c ∷ d ∷ s

unfoldable pub trim_right : String → String
trim_right [] = ""
trim_right (c ∷ s) = trim_cons c (trim_right s)

-- `strings.TrimSpace`
unfoldable pub trim_space : String → String
unfolding trim_left trim_right
trim_space s = trim_right (trim_left s)

abbrev pub is_comma : Char → Bool
is_comma c = leb b',' (code c) && leb (code c) b','

abbrev pub push_front : Char → List String → List String
push_front c List.[] = List.◌∷◌ (c ∷ []) List.[]
push_front c (List.◌∷◌ p ps) = List.◌∷◌ (c ∷ p) ps

-- `strings.Split(s, ",")`
unfoldable pub split_comma : String → List String
split_comma [] = List.◌∷◌ "" List.[]
split_comma (c ∷ s) =
    let rest = split_comma s in if is_comma c then List.◌∷◌ "" rest else push_front c rest

-- `strings.Split(s, "\n")`
unfoldable pub split_lines : String → List String
split_lines [] = List.◌∷◌ "" List.[]
split_lines (c ∷ s) =
    let rest = split_lines s in
    if leb b'\n' (code c) && leb (code c) b'\n' then List.◌∷◌ "" rest else push_front c rest

abbrev is_newline : Char → Bool
is_newline c = leb b'\n' (code c) && leb (code c) b'\n'

-- `strings.Split(s, "\n\n")`
unfoldable pub split_blocks : String → List String
split_blocks [] = List.◌∷◌ "" List.[]
split_blocks (c ∷ []) = List.◌∷◌ (c ∷ []) List.[]
split_blocks (c ∷ d ∷ s) = elim (is_newline c && is_newline d) [
  | true ↦ List.◌∷◌ "" (split_blocks s)
  | false ↦ push_front c (split_blocks (d ∷ s))
]

unfoldable pub append : String → String → String
append [] t = t
append (c ∷ s) t = c ∷ append s t

-- `strings.Join(parts, ",")`
unfoldable pub join_comma : List String → String
unfolding append
join_comma List.[] = ""
join_comma (List.◌∷◌ p List.[]) = p
join_comma (List.◌∷◌ p (List.◌∷◌ q ps)) = append p ("," ∷ join_comma (List.◌∷◌ q ps))

-- What stands behind a prefix, if `s` has it: `strings.HasPrefix`, `strings.TrimPrefix`.
unfoldable pub strip_prefix? : String → String → Option String
strip_prefix? [] s = some s
strip_prefix? (c ∷ p) [] = none
strip_prefix? (c ∷ p) (d ∷ s) =
    let rest = strip_prefix? p s in
    if leb (code c) (code d) && leb (code d) (code c) then rest else none

unfoldable pub has_prefix : String → String → Bool
unfolding strip_prefix?
has_prefix p s = is_some (strip_prefix? p s)

-- `strings.TrimRight(s, "/")`, one round at a time.
abbrev pub slash_cons : Char → String → String
slash_cons c [] = if leb (code c) b'/' && leb b'/' (code c) then "" else c ∷ []
slash_cons c (d ∷ s) = c ∷ d ∷ s

unfoldable pub trim_slashes : String → String
trim_slashes [] = ""
trim_slashes (c ∷ s) = slash_cons c (trim_slashes s)

-- `strings.TrimRight(s, "\n")`
abbrev pub newline_cons : Char → String → String
newline_cons c [] = if leb (code c) b'\n' && leb b'\n' (code c) then "" else c ∷ []
newline_cons c (d ∷ s) = c ∷ d ∷ s

unfoldable pub trim_newlines : String → String
trim_newlines [] = ""
trim_newlines (c ∷ s) = newline_cons c (trim_newlines s)

-- `strings.HasSuffix(s, suffix)`
unfoldable pub has_suffix : String → String → Bool
has_suffix suffix [] = suffix == ""
has_suffix suffix (c ∷ s) = (c ∷ s) == suffix || has_suffix suffix s

unfoldable pub take_text : ℕ → String → String
take_text zero s = ""
take_text (suc n) [] = ""
take_text (suc n) (c ∷ s) = c ∷ take_text n s

unfoldable pub drop_text : ℕ → String → String
drop_text zero s = s
drop_text (suc n) [] = ""
drop_text (suc n) (c ∷ s) = drop_text n s

-- The number of code points: the length in bytes of an ASCII text.
unfoldable pub length_text : String → ℕ
length_text [] = 0
length_text (c ∷ s) = suc (length_text s)

trimmed : trim_space "  a b\t" ≡ "a b"
unfolding trim_space
trimmed = refl

split_and_join : split_comma "a,,b" ≡ List.◌∷◌ "a" (List.◌∷◌ "" (List.◌∷◌ "b" List.[]))
unfolding split_comma
split_and_join = refl

-- `len(s)` in the encoding UTF-8.
abbrev char_bytes : Char → ℕ
char_bytes c =
    let n = code c in
    if leb n 127 then 1 else if leb n 2047 then 2 else if leb n 65535 then 3 else 4

unfoldable pub byte_length : String → ℕ
byte_length [] = 0
byte_length (c ∷ s) = char_bytes c + byte_length s

pub append_empty : (s : String) → append s "" ≡ s
unfolding append
append_empty [] = refl
append_empty (c ∷ s) = ap (λ t. c ∷ t) (append_empty s)

pub append-append : (s t u : String) → append (append s t) u ≡ append s (append t u)
unfolding append
append-append [] t u = refl
append-append (c ∷ s) t u = ap (λ r. c ∷ r) (append-append s t u)

two_blocks : split_blocks "a\nb\n\nc\n\n" ≡ List.◌∷◌ "a\nb" (List.◌∷◌ "c" (List.◌∷◌ "" List.[]))
unfolding split_blocks
two_blocks = refl
