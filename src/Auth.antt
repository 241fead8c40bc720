-- ===== src/Auth.antt =====
-- internal/auth/jwt.go: the tokens that log a user or an administrator in. The JWT package signs the
-- claims and checks a signature; a NumericDate counts seconds, `now` nanoseconds.
use cli_relay.Prelude.{String, Option, none, some, if◌then◌else◌, ◌^◌}
use cli_relay.Prelude.Int.{ℤ, pos, ◌+ℤ◌, ◌*ℤ◌, ltb_ℤ, quot_ℕ}
use cli_relay.Prelude.Results.{Result, ok, err}

pub record Claims : Type 0 where
  pub expires_at : ℤ
  pub issued_at : ℤ
  pub user_id : String
  pub username : String
  pub type : String

-- `SignedString` with HS256, and `ParseWithClaims` without the validation of the claims.
pub record Jwt : Type 0 where
  pub signed_string : String → Claims → Result String
  pub verify : String → String → Option Claims

abbrev pub to_seconds : ℤ → ℤ
to_seconds t = quot_ℕ t (10 ^ 9)

module _ (jwt : Jwt) (secret : String) (now : ℤ) where
  unfoldable pub generate_token : String → String → String → ℤ → Result String
  generate_token user_id username type expiry = jwt.signed_string secret (record {
    expires_at = to_seconds (now +ℤ expiry);
    issued_at = to_seconds now;
    user_id = user_id;
    username = username;
    type = type;
  })

  abbrev unexpired : Option Claims → Result Claims
  unexpired none = err "invalid token"
  unexpired (some c) =
      if ltb_ℤ now (c.expires_at *ℤ pos (10 ^ 9)) then ok c else err "token expired"

  unfoldable pub parse_token : String → Result Claims
  parse_token token = unexpired (jwt.verify secret token)
