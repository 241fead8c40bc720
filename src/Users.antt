-- ===== src/Users.antt =====
-- internal/user/service.go: what users do with their accounts, API keys, plans and codes. A method
-- takes the database and gives it back; where it fails, nothing has changed. Column widths are left out.
pub mod Text
pub mod Accounts
pub mod ApiKeys
pub mod Plans
pub mod Registration
pub mod Revocation
pub mod KeyCount
pub mod Redemption
pub mod Parts
pub mod Csv
pub mod Rows
pub mod Lookups
pub mod Emails
mod Tests
use cli_relay.Prelude.{none, ℕ, suc, String, Bool, true, false, List, [], ◌∷◌, if◌then◌else◌}
use cli_relay.Prelude.Int.{ℤ, pos}
use cli_relay.Prelude.Results.{Result, ok, err}
use cli_relay.Auth.{Jwt}
use cli_relay.Billing.Counts.{TimeFormat}
use cli_relay.Db.{Base, Database}

-- `mail.ParseAddress`, `bcrypt`, whose salt is random, the tokens, and the layout RFC 3339.
pub record Services : Type 0 where
  pub parses_address : String → Bool
  pub generate_hash : String → String → Result String
  pub compare_hash : String → String → Bool
  pub jwt : Jwt
  pub times : TimeFormat

-- `Service`, without its database.
pub record Config : Type 0 where
  pub jwt_secret : String
  pub jwt_expiry : ℤ
  pub max_keys_per_user : ℤ

abbrev pub count {ℓ} : {A : Type ℓ} → (A → Bool) → List A → ℕ
count p [] = 0
count p (x ∷ xs) = if p x then suc (count p xs) else count p xs

-- `Count(&n)`, whose error nobody reads.
abbrev pub count_rows {ℓ} : {A : Type ℓ} → Bool → (A → Bool) → List A → ℕ
count_rows failing p rows = if failing then 0 else count p rows

-- An error that is replaced by a message of the method.
abbrev pub or_message {ℓ} : {A : Type ℓ} → String → Result A → Result A
or_message message (ok a) = ok a
or_message message (err e) = err message

-- The columns of a row that is made.
abbrev pub new_base : String → ℤ → Base
new_base id now = record { id = id; created_at = now; updated_at = now; deleted_at = none }
