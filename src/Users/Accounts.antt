-- ===== src/Users/Accounts.antt =====
-- internal/user/service.go: registering, logging in, and changing a password or an email.
use cli_relay.Prelude.{
  String, Bool, Option, none, some, [], ◌∷◌, ◌++◌, if◌then◌else◌, ◌==◌, ◌&&◌, ◌||◌, not, any, leb,
  update_where,
}
use cli_relay.Prelude.Int.{ℤ, pos, ◌+ℤ◌}
use cli_relay.Prelude.Results.{Result, ok, err, ◌>>=◌, ◌>>◌, guard}
use cli_relay.Prelude.Text.{trim_space, byte_length}
use cli_relay.Auth.{Claims, generate_token, parse_token, to_seconds}
use cli_relay.Db.{Database, User}
use cli_relay.Db.Queries.{first, is_live}
use cli_relay.Users.{Services, Config, count_rows, or_message, new_base}

pub record LoginResponse : Type 0 where
  pub token : String
  pub expires_at : ℤ

abbrev pub is_live_user : User → Bool
is_live_user user = is_live user.deleted_at

abbrev pub is_active : User → Bool
is_active user = is_live user.deleted_at && user.status == "active"

-- `tx.Create(&newUser)`: the unique indexes cover the rows that are deleted too.
unfoldable pub create_user : Database → User → Result Database
create_user db user =
    if db.failing
    then err "database is unavailable"
    else if any (λ u. u.email == user.email || u.username == user.username) db.users
    then err "email or username already registered"
    else ok (record db { users = db.users ++ user ∷ [] })

-- The row of this id, with its `updated_at`.
abbrev pub update_user : Database → String → ℤ → (User → User) → Result Database
update_user db id now change =
    if db.failing
    then err "database is unavailable"
    else ok (record db {
      users =
          update_where (λ u. u.id == id)
            (λ u. record (change u) { base = record u.base { updated_at = now } }) db.users;
    })

module _ (services : Services) (config : Config) (now : ℤ) where
  -- `generateUserToken`, and the answer with it.
  unfoldable pub log_in_as : String → String → Result LoginResponse
  log_in_as user_id username =
      generate_token services.jwt config.jwt_secret now user_id username "user" config.jwt_expiry
      >>= λ token. ok (record { token = token; expires_at = to_seconds (now +ℤ config.jwt_expiry) })

  abbrev pub new_user : String → String → String → String → User
  new_user id email username hash = record {
    base = new_base id now;
    email = email;
    username = username;
    password_hash = hash;
    status = "active";
    balance = pos 0;
  }

  -- The transaction of `Register`.
  unfoldable pub register_user : Database → User → Result Database
  register_user db user =
      guard (leb (count_rows db.failing (λ u. u.email == user.email && is_live_user u) db.users) 0)
        "email already registered"
      >> guard
          (leb (count_rows db.failing (λ u. u.username == user.username && is_live_user u) db.users)
            0)
          "username already taken"
      >> create_user db user

  -- `Register`, with the new user's id and the salt of its hash. The row stays where the answer fails.
  unfoldable pub register :
      Database
      → String
      → String
      → String
      → String
      → String
      → Result (Database × Result LoginResponse)
  register db id salt email username password = do
    let trimmed = trim_space username
    u ← guard (services.parses_address email) "invalid email format"
    v ←
        guard (not (trimmed == "") && leb (byte_length trimmed) 100)
          "username must be 1-100 characters"
    w ← guard (leb 8 (byte_length password)) "password must be at least 8 characters"
    hash ← services.generate_hash salt password
    db' ← register_user db (new_user id email trimmed hash)
    ok (db', log_in_as id trimmed)

  unfoldable pub login : Database → String → String → Result LoginResponse
  login db email password = do
    user ←
        or_message "invalid email or password"
          (first db.failing (λ u. u.email == email && is_active u) db.users)
    u ← guard (services.compare_hash user.password_hash password) "invalid email or password"
    log_in_as user.id user.username

  abbrev claims_or_invalid : Option Claims → Result Claims
  claims_or_invalid none = err "invalid token"
  claims_or_invalid (some c) = ok c

  abbrev or_expired : String → Result Claims → Result Claims
  or_expired token (ok c) = ok c
  or_expired token (err e) =
      if e == "token expired"
      then claims_or_invalid (services.jwt.verify config.jwt_secret token)
      else err e

  -- `parseTokenAllowExpired`
  unfoldable pub parse_token_allow_expired : String → Result (String × String)
  parse_token_allow_expired token =
      or_expired token (parse_token services.jwt config.jwt_secret now token) >>= λ c.
      ok (c.user_id, c.username)

  unfoldable pub refresh_token : Database → String → Result LoginResponse
  refresh_token db token = do
    ids ← or_message "invalid token" (parse_token_allow_expired token)
    user ←
        or_message "user not found or inactive"
          (first db.failing (λ u. u.id == ids.0 && is_active u) db.users)
    log_in_as ids.0 ids.1

  abbrev active_user : Database → String → Result User
  active_user db user_id =
      or_message "user not found" (first db.failing (λ u. u.id == user_id && is_active u) db.users)

  unfoldable pub update_password : Database → String → String → String → String → Result Database
  update_password db user_id salt old_password new_password = do
    u ← guard (leb 8 (byte_length new_password)) "new password must be at least 8 characters"
    user ← active_user db user_id
    v ← guard (services.compare_hash user.password_hash old_password) "incorrect old password"
    hash ← services.generate_hash salt new_password
    update_user db user.id now (λ row. record row { password_hash = hash })

  -- The unique index refuses an email that another row holds, deleted or not.
  unfoldable pub write_email : Database → User → String → Result Database
  write_email db user email =
      if any (λ u. u.email == email && not (u.id == user.id)) db.users
      then err "duplicate key value violates unique constraint"
      else update_user db user.id now (λ row. record row { email = email })

  unfoldable pub update_email : Database → String → String → String → Result Database
  update_email db user_id email password = do
    u ← guard (services.parses_address email) "invalid email format"
    user ← active_user db user_id
    v ← guard (services.compare_hash user.password_hash password) "incorrect password"
    w ←
        guard (leb (count_rows db.failing (λ u. u.email == email && is_live_user u) db.users) 0)
          "email already in use"
    write_email db user email
