-- ===== src/Provider/Credentials.antt =====
-- internal/relay/provider/credentials.go: the key that a decrypted credential holds.
use cli_relay.Prelude.{String, Option, some, List, [], ◌∷◌, if◌then◌else◌, ◌==◌, not}
use cli_relay.Prelude.Text.{trim_space, has_prefix}
use cli_relay.Json.{Json, null, object, Fields, end}
use cli_relay.Provider.Values.{as_text, read}
use cli_relay.Provider.Codec.{Codec}

-- The loop over the keys, whose fallback is the raw text.
unfoldable pub first_key : List String → Fields → String → String
unfolding read
first_key [] m creds = creds
first_key (key ∷ keys) m creds =
    let rest = first_key keys m creds in let v = as_text (read key m) in if v == "" then rest else v

abbrev pub key_names : List String
key_names = "access_token" ∷ "api_key" ∷ "token" ∷ "key" ∷ []

abbrev pub key_of : Option Json → String → String
key_of (some (object m)) creds = first_key key_names m creds
key_of (some null) creds = first_key key_names end creds
key_of _ creds = creds

unfoldable pub extract_credential_key : Codec → String → String
unfolding trim_space has_prefix first_key
extract_credential_key codec creds =
    let trimmed = trim_space creds in
    if not (has_prefix "{" trimmed) then trimmed else key_of (codec.unmarshal trimmed) trimmed
