-- ===== src/Users/ApiKeys.antt =====
-- internal/user/service.go: a user's API keys. A new key's name is drawn by the `uuid` package.
use cli_relay.Prelude.{
  String, Bool, true, false, Option, none, some, List, [], ◌∷◌, ◌++◌, if◌then◌else◌, ◌==◌, ◌&&◌,
  not, any, map, filter, update_where,
}
use cli_relay.Prelude.Int.{ℤ, pos, ltb_ℤ}
use cli_relay.Prelude.Results.{Result, ok, err, ◌>>=◌, ◌>>◌, guard}
use cli_relay.Prelude.Text.{trim_space, append}
use cli_relay.Billing.Counts.{TimeFormat}
use cli_relay.Db.{Database, Token}
use cli_relay.Db.Queries.{first, is_live}
use cli_relay.Users.{Services, Config, count_rows, or_message, new_base}
use cli_relay.Users.Text.{normalize_csv, mask_key, parse_optional_time}

pub record CreateKeyRequest : Type 0 where
  pub name : String
  pub ip_whitelist : String
  pub expires_at : Option String
  pub models : String
  pub permissions : String

pub record KeyResponse : Type 0 where
  pub id : String
  pub name : String
  pub key : String
  pub enabled : Bool
  pub ip_whitelist : String
  pub expires_at : Option String
  pub models : String
  pub permissions : String
  pub created_at : String

abbrev format_optional_time : TimeFormat → Option ℤ → Option String
format_optional_time times none = none
format_optional_time times (some t) = some (times.format t)

-- The answer for a token, with its key as it is shown.
abbrev pub key_response : TimeFormat → Token → String → KeyResponse
key_response times t key = record {
  id = t.id;
  name = t.name;
  key = key;
  enabled = t.enabled;
  ip_whitelist = t.ip_whitelist;
  expires_at = format_optional_time times t.expires_at;
  models = t.models;
  permissions = t.permissions;
  created_at = times.format t.created_at;
}

-- The keys of a user that are not deleted.
abbrev pub is_key_of : String → Token → Bool
is_key_of user_id t = t.user_id == user_id && is_live t.deleted_at

unfoldable pub list_keys : TimeFormat → Database → String → Result (List KeyResponse)
list_keys times db user_id =
    if db.failing
    then err "database is unavailable"
    else ok
        (map (λ t. key_response times t (mask_key t.key)) (filter (is_key_of user_id) db.tokens))

abbrev insert_token : Database → Token → Result Database
insert_token db token =
    if db.failing
    then err "database is unavailable"
    else if any (λ t. t.key == token.key) db.tokens
    then err "duplicate key value violates unique constraint"
    else ok (record db { tokens = db.tokens ++ token ∷ [] })

abbrev pub mark_deleted : ℤ → Token → Token
mark_deleted now t = record t { base = record t.base { deleted_at = some now; updated_at = now } }

module _ (services : Services) (config : Config) (now : ℤ) where
  abbrev new_key : String → String → String → String → Option ℤ → CreateKeyRequest → Token
  new_key id key_uuid user_id name expires_at req = record {
    base = new_base id now;
    user_id = user_id;
    name = name;
    key = append "sk-relay-" key_uuid;
    enabled = true;
    ip_whitelist = normalize_csv req.ip_whitelist;
    expires_at = expires_at;
    models = normalize_csv req.models;
    permissions = normalize_csv req.permissions;
    unlimited = false;
  }

  -- The transaction of `CreateKey`.
  unfoldable pub add_key : Database → String → Token → Result Database
  add_key db user_id token =
      guard
        (ltb_ℤ (pos (count_rows db.failing (is_key_of user_id) db.tokens)) config.max_keys_per_user)
        "maximum number of API keys reached"
      >> insert_token db token

  -- `CreateKey`, with the new row's id and the UUID of its key, less the dashes.
  unfoldable pub create_key :
      Database → String → String → String → CreateKeyRequest → Result (Database × KeyResponse)
  create_key db id key_uuid user_id req = do
    let name = trim_space req.name
    u ← guard (not (name == "")) "name is required"
    expires_at ← parse_optional_time services.times now req.expires_at
    let token = new_key id key_uuid user_id name expires_at req
    db' ← add_key db user_id token
    ok (db', key_response services.times token token.key)

  unfoldable pub delete_key : Database → String → String → Result Database
  delete_key db user_id key_id = do
    token ← or_message "key not found" (
        first db.failing (λ t. t.id == key_id && (t.user_id == user_id && is_live t.deleted_at))
          db.tokens)
    ok (record db { tokens = update_where (λ t. t.id == token.id) (mark_deleted now) db.tokens })
