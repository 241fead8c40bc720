-- ===== src/Users/KeyCount.antt =====
-- The number of a user's API keys, through `CreateKey` of internal/user/service.go.
use cli_relay.Prelude.{String, Bool, List, [], ◌∷◌, ◌++◌, ◌≡◌, arith, ◌≤◌, ◌+◌}
use cli_relay.Prelude.Int.{ℤ, pos, ◌≤ℤ◌}
use cli_relay.Prelude.Results.{ok}
use cli_relay.Db.{Database, Token}
use cli_relay.Users.{Services, Config, count}
use cli_relay.Users.ApiKeys.{is_key_of, add_key, create_key, CreateKeyRequest, KeyResponse}

count-added {ℓ} :
    {A : Type ℓ} (p : A → Bool) (xs : List A) (x : A) → count p (xs ++ x ∷ []) ≤ count p xs + 1
count-added p [] x = ground arith
count-added p (y ∷ xs) x = ground (arith, count-added p xs x)

module _ (services : Services) (config : Config) (now : ℤ) where
  add_key-count :
      (db db' : Database) (user_id : String) (token : Token)
      → add_key services config now db user_id token ≡ ok db'
      → pos (count (is_key_of user_id) db'.tokens) ≤ℤ config.max_keys_per_user
  unfolding add_key
  add_key-count db db' user_id token e =
      ground (arith, count-added (is_key_of user_id) db.tokens token)

  -- After `CreateKey` has made a key, the user has no more keys than the limit.
  pub create_key-count :
      (db db' : Database) (id key_uuid user_id : String) (req : CreateKeyRequest) (r : KeyResponse)
      → create_key services config now db id key_uuid user_id req ≡ ok (db', r)
      → pos (count (is_key_of user_id) db'.tokens) ≤ℤ config.max_keys_per_user
  unfolding create_key
  create_key-count db db' id key_uuid user_id req r e = grind (arith, add_key-count db)
