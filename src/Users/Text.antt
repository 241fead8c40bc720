-- ===== src/Users/Text.antt =====
-- internal/user/service.go: the texts that the service normalizes and masks. `parseOptionalTime` reads
-- the layout RFC 3339.
use cli_relay.Prelude.{
  String, Option, none, some, List, [], ◌∷◌, if◌then◌else◌, ◌==◌, any, leb, ◌-◌,
}
use cli_relay.Prelude.Int.{ℤ, ltb_ℤ}
use cli_relay.Prelude.Results.{Result, ok, err}
use cli_relay.Prelude.Text.{
  trim_space, split_comma, join_comma, append, take_text, drop_text, length_text,
}
use cli_relay.Billing.Counts.{TimeFormat}

-- The loop of `normalizeCSV`, with the parts seen so far.
unfoldable pub distinct_parts : List String → List String → List String
distinct_parts seen [] = []
distinct_parts seen (part ∷ parts) =
    let trimmed = trim_space part in
    if trimmed == ""
    then distinct_parts seen parts
    else if any (λ s. s == trimmed) seen
    then distinct_parts seen parts
    else trimmed ∷ distinct_parts (trimmed ∷ seen) parts

unfoldable pub normalize_csv : String → String
normalize_csv value = join_comma (distinct_parts [] (split_comma value))

-- `maskKey`: the first eight and the last four characters of a longer key.
unfoldable pub mask_key : String → String
mask_key key =
    if leb (length_text key) 8
    then key
    else append (take_text 8 key) (append "****" (drop_text (length_text key - 4) key))

abbrev in_future : ℤ → Option ℤ → Result (Option ℤ)
in_future now none = err "expires_at must be RFC3339"
in_future now (some t) = if ltb_ℤ now t then ok (some t) else err "expires_at must be in the future"

unfoldable pub parse_optional_time : TimeFormat → ℤ → Option String → Result (Option ℤ)
parse_optional_time times now none = ok none
parse_optional_time times now (some value) =
    if trim_space value == "" then ok none else in_future now (times.parse (trim_space value))
