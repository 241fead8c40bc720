-- ===== src/Users/Registration.antt =====
-- `Register` and then `Login` of internal/user/service.go.
use cli_relay.Prelude.{
  String, true, false, some, List, [], ◌∷◌, ◌++◌, ◌≡◌, refl, arith, ◌==◌, ◌&&◌, ◌||◌, any, find,
  eq_refl, inl, inr,
}
use cli_relay.Prelude.Int.{ℤ}
use cli_relay.Prelude.Results.{Result, ok, Result-cases}
use cli_relay.Prelude.Text.{trim_space}
use cli_relay.Db.{Database, User}
use cli_relay.Db.Queries.{first}
use cli_relay.Users.{Services, Config}
use cli_relay.Users.Accounts.{
  LoginResponse, new_user, create_user, register_user, register, login, log_in_as, is_active,
}

-- The row that is added is the one that its email finds.
find-added :
    (users : List User) (user : User)
    → any (λ u. u.email == user.email || u.username == user.username) users ≡ false
    → is_active user ≡ true
    → find (λ u. u.email == user.email && is_active u) (users ++ user ∷ []) ≡ some user
find-added [] user h active = ground (arith, eq_refl user.email)
find-added (u ∷ users) user h active = ground (arith, find-added users user)

create_user-find :
    (db db' : Database) (user : User)
    → create_user db user ≡ ok db'
    → is_active user ≡ true
    → first db'.failing (λ u. u.email == user.email && is_active u) db'.users ≡ ok user
unfolding create_user
create_user-find db db' user e active = ground (arith, find-added db.users user, active)

module _ (services : Services) (config : Config) (now : ℤ) where
  register_user-find :
      (db db' : Database) (user : User)
      → register_user services config now db user ≡ ok db'
      → is_active user ≡ true
      → first db'.failing (λ u. u.email == user.email && is_active u) db'.users ≡ ok user
  unfolding register_user
  register_user-find db db' user e active =
      let found = create_user-find db db' user in ground (arith, found, active)

  registered :
      (db db' : Database) (id salt email username password : String) (r : Result LoginResponse)
      → register services config now db id salt email username password ≡ ok (db', r)
      → (hash : String) × (services.generate_hash salt password ≡ ok hash)
        × (register_user services config now db
              (new_user services config now id email (trim_space username) hash)
            ≡ ok db')
  unfolding register
  registered db db' id salt email username password r e =
      elim (Result-cases (services.generate_hash salt password)) [
        | inl (m, failed) ↦ absurd (ground (arith, failed))
        | inr (hash, made) ↦ (hash, made, ground (arith, made))
      ]

  -- Where bcrypt accepts the password against its own hash, a user who has registered logs in with
  -- the email and the password, as the user of the new row.
  pub login-register :
      (db db' : Database) (id salt email username password : String) (r : Result LoginResponse)
      → ((hash : String)
          → services.generate_hash salt password ≡ ok hash
          → services.compare_hash hash password ≡ true)
      → register services config now db id salt email username password ≡ ok (db', r)
      → login services config now db' email password
        ≡ log_in_as services config now id (trim_space username)
  unfolding login
  login-register db db' id salt email username password r accepts e =
      let (hash, made, added) = registered db db' id salt email username password r e in
      let user = new_user services config now id email (trim_space username) hash in
      let found = register_user-find db db' user added refl in rw (found, accepts hash made) refl
