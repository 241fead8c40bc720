-- ===== src/Users/Emails.antt =====
-- The emails of the users, through `Register` and `UpdateEmail` of internal/user/service.go.
use cli_relay.Prelude.{
  String, true, false, All, ◌≢◌, ◌⊎◌, leb, ◌≡◌, refl, ◌==◌, ◌&&◌, eq_iff, inl, inr, Bool-cases,
}
use cli_relay.Prelude.Int.{ℤ}
use cli_relay.Prelude.Results.{Result, ok, err, Result-cases, guard, ◌>>=◌, is_ok}
use cli_relay.Db.{Database, User}
use cli_relay.Users.{Services, Config, count, count_rows}
use cli_relay.Users.Accounts.{
  create_user, register_user, write_email, update_email, is_active, is_live_user,
}
use cli_relay.Db.Queries.{first}
use cli_relay.Users.Rows.{IsUnique, IsUnique-added, IsUnique-move, has_email, has_id}
use cli_relay.Users.Lookups.{
  IsKept, has_name, count-has_email, count-has_name, none-is_taken, none-registered, first-up,
  count-taken, count-name_taken, has_email-last, has_email-moved, first-has_id,
}

-- The call leaves distinct ids and emails, this email among them, or it has a reason to refuse, and its
-- error is another one than that of the database.
abbrev pub Keeps : Type 0 → String → String → Result Database → Type 0
Keeps Reason email refusal r =
    ((db : Database) × (r ≡ ok db) × IsUnique db.users × (has_email email db.users ≡ true))
    ⊎ ((message : String) × (r ≡ err message) × (message ≢ refusal) × Reason)

differs : (a b : String) → (a == b) ≡ false → a ≢ b
differs a b h e = let t = (eq_iff a b).1 e in cc

module _ (services : Services) (config : Config) (now : ℤ) where
  write_email-Keeps :
      (Reason : Type 0) (refusal : String) (db : Database) (user : User) (email : String)
      → IsUnique db.users
      → db.failing ≡ false
      → has_id user.id db.users ≡ true
      → has_email email db.users ≡ false
      → Keeps Reason email refusal (write_email services config now db user email)
  unfolding write_email
  write_email-Keeps Reason refusal db user email h up here free =
      let untaken = none-is_taken user.id email db.users free in
      rw (untaken, up)
        (inl (
          _,
          refl,
          IsUnique-move user.id email now db.users h untaken,
          has_email-moved user.id email now db.users here,
        ))

  abbrev find_active : Database → String → Result User
  find_active db user_id = first db.failing (λ u. u.id == user_id && is_active u) db.users

  -- Why `UpdateEmail` may refuse: the email is no address, there is no such active user, the password is
  -- not this user's, or a row has the email.
  abbrev pub MayRefuse : Database → String → String → String → Type 0
  MayRefuse db user_id email password =
      (services.parses_address email ≡ false)
      ⊎ (is_ok (find_active db user_id) ≡ false)
      ⊎ ((user : User) × (find_active db user_id ≡ ok user)
          × (services.compare_hash user.password_hash password ≡ false))
      ⊎ (has_email email db.users ≡ true)

  -- What follows the query of the user.
  email_checked :
      (Reason : Type 0) (db : Database) (user : User) (user_id email password : String)
      → (MayRefuse db user_id email password → Reason)
      → find_active db user_id ≡ ok user
      → All IsKept db.users
      → IsUnique db.users
      → Keeps Reason email "duplicate key value violates unique constraint" (
          guard (services.compare_hash user.password_hash password) "incorrect password" >>= λ v.
          guard
            (leb (count_rows db.failing (λ u. u.email == email && is_live_user u) db.users) 0)
            "email already in use"
          >>= λ w. write_email services config now db user email)
  email_checked Reason db user user_id email password give found live h =
      let up = first-up db.failing _ db.users user found in
      elim (Bool-cases (services.compare_hash user.password_hash password)) [
        | inr e ↦ rw e (
            inr (
              "incorrect password",
              refl,
              differs _ _ refl,
              give (inr (inr (inl (user, found, e)))),
            ))
        | inl e ↦
            elim (Bool-cases
              (leb (count_rows db.failing (λ u. u.email == email && is_live_user u) db.users) 0)) [
                | inr taken ↦
                    let there = count-taken email db.users (rw up at taken) in
                    rw (e, taken)
                      (inr (
                        "email already in use",
                        refl,
                        differs _ _ refl,
                        give (inr (inr (inr there))),
                      ))
                | inl free ↦
                    rw (e, free)
                      (write_email-Keeps _ _ db user email h up
                        (first-has_id db.failing user_id is_active db.users user found)
                        (count-has_email email db.users live (rw up at free)))
              ]
      ]

  email_updated :
      (Reason : Type 0) (db : Database) (user_id email password : String)
      → (MayRefuse db user_id email password → Reason)
      → All IsKept db.users
      → IsUnique db.users
      → Keeps Reason email "duplicate key value violates unique constraint"
          (update_email services config now db user_id email password)
  unfolding update_email
  email_updated Reason db user_id email password give live h =
      elim (Bool-cases (services.parses_address email)) [
        | inr e ↦ rw e (inr ("invalid email format", refl, differs _ _ refl, give (inl e)))
        | inl e ↦ elim (Result-cases (find_active db user_id)) [
          | inl (m, missing) ↦
              let absent : is_ok (find_active db user_id) ≡ false = rw missing refl in
              rw (e, missing)
                (inr ("user not found", refl, differs _ _ refl, give (inr (inl absent))))
          | inr (user, found) ↦
              rw (e, found) (email_checked Reason db user user_id email password give found live h)
        ]
      ]

  -- Where no user has been deleted and ids and emails are distinct, `UpdateEmail` ends with distinct
  -- ones, the new email among them, or refuses: because the email is no address, there is no such active
  -- user, the password is not this user's or a row has the email, and never by the error of the unique
  -- index of the database.
  pub update_email-Keeps :
      (db : Database) (user_id email password : String)
      → All IsKept db.users
      → IsUnique db.users
      → Keeps
          (MayRefuse db user_id email password)
          email
          "duplicate key value violates unique constraint"
          (update_email services config now db user_id email password)
  update_email-Keeps db user_id email password live h =
      email_updated (MayRefuse db user_id email password) db user_id email password
        (λ reason. reason) live h

-- Where no user has been deleted, ids and emails are distinct and the new id is fresh, the transaction of
-- `Register` ends with distinct ones, the new email among them, or refuses: because the database does
-- not answer or a row has the email or the username, and never by the error of a unique index of the
-- database.
pub register_user-Keeps :
    (services : Services) (config : Config) (now : ℤ) (db : Database) (user : User)
    → All IsKept db.users
    → IsUnique db.users
    → has_id user.id db.users ≡ false
    → Keeps
        ((db.failing ≡ true)
          ⊎ (has_email user.email db.users ≡ true)
          ⊎ (has_name user.username db.users ≡ true))
        user.email
        "email or username already registered"
        (register_user services config now db user)
unfolding register_user create_user
register_user-Keeps services config now db user live h fresh = elim (Bool-cases db.failing) [
  | inl down ↦ rw down (inr ("database is unavailable", refl, differs _ _ refl, inl refl))
  | inr up ↦
      elim (Bool-cases (leb (count (λ u. u.email == user.email && is_live_user u) db.users) 0)) [
        | inr e ↦
            let there = count-taken user.email db.users e in
            rw (up, e) (inr ("email already registered", refl, differs _ _ refl, inr (inl there)))
        | inl e ↦
            let free = count-has_email user.email db.users live e in
            elim (Bool-cases
              (leb (count (λ u. u.username == user.username && is_live_user u) db.users) 0)) [
                | inr n ↦
                    let there = count-name_taken user.username db.users n in
                    rw (up, e, n)
                      (inr ("username already taken", refl, differs _ _ refl, inr (inr there)))
                | inl n ↦
                    rw
                      (
                        up,
                        e,
                        n,
                        none-registered user.email user.username db.users free
                            (count-has_name user.username db.users live n),
                      )
                      (inl (
                        _,
                        refl,
                        IsUnique-added db.users user h fresh free,
                        has_email-last db.users user,
                      ))
              ]
      ]
]
