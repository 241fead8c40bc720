-- ===== src/Users/Lookups.antt =====
-- What the counts and queries of internal/user/service.go find among the rows of users.
use cli_relay.Prelude.{
  Option, none, some, find, eq_refl, subst, ap, ◌++◌, String, Bool, true, false, List, All, leb, [],
  ◌∷◌, ◌≡◌, refl, arith, ◌==◌, ◌&&◌, ◌||◌, any, inl, inr, Bool-cases,
}
use cli_relay.Prelude.Int.{ℤ}
use cli_relay.Prelude.Results.{ok, ok_inj}
use cli_relay.Db.{User}
use cli_relay.Users.{count}
use cli_relay.Users.Accounts.{is_live_user}
use cli_relay.Db.Queries.{first, or_not_found}
use cli_relay.Users.Rows.{has_email, has_id, is_taken, move}

-- The row is not deleted.
abbrev pub IsKept : User → Type 0
IsKept u = is_live_user u ≡ true

-- Where all rows are kept, the count of the live rows finds each row with the email or the name.
pub count-has_email :
    (email : String) (users : List User)
    → All IsKept users
    → leb (count (λ u. u.email == email && is_live_user u) users) 0 ≡ true
    → has_email email users ≡ false
count-has_email email [] live h = refl
count-has_email email (u ∷ users) (l, ls) h = ground (arith, count-has_email email users ls)

abbrev pub has_name : String → List User → Bool
has_name name users = any (λ u. u.username == name) users

pub count-has_name :
    (name : String) (users : List User)
    → All IsKept users
    → leb (count (λ u. u.username == name && is_live_user u) users) 0 ≡ true
    → has_name name users ≡ false
count-has_name name [] live h = refl
count-has_name name (u ∷ users) (l, ls) h = ground (arith, count-has_name name users ls)

pub count-taken :
    (email : String) (users : List User)
    → leb (count (λ u. u.email == email && is_live_user u) users) 0 ≡ false
    → has_email email users ≡ true
count-taken email [] h = cc
count-taken email (u ∷ users) h = ground (arith, count-taken email users)

pub count-name_taken :
    (name : String) (users : List User)
    → leb (count (λ u. u.username == name && is_live_user u) users) 0 ≡ false
    → has_name name users ≡ true
count-name_taken name [] h = cc
count-name_taken name (u ∷ users) h = ground (arith, count-name_taken name users)

pub has_email-last :
    (users : List User) (user : User) → has_email user.email (users ++ user ∷ []) ≡ true
has_email-last [] user = ground (arith, eq_refl user.email)
has_email-last (u ∷ users) user = ground (arith, has_email-last users user)

-- The row that is found gets the email.
pub has_email-moved :
    (id email : String) (now : ℤ) (users : List User)
    → has_id id users ≡ true
    → has_email email (move id email now users) ≡ true
has_email-moved id email now [] h = cc
has_email-moved id email now (u ∷ users) h = elim (Bool-cases (u.id == id)) [
  | inl e ↦ rw e (ground (arith, eq_refl email))
  | inr e ↦ rw e (ground (arith, has_email-moved id email now users))
]

found-has_id :
    (id : String) (p : User → Bool) (users : List User) (user : User)
    → find (λ u. u.id == id && p u) users ≡ some user
    → has_id user.id users ≡ true
found-has_id id p [] user e = cc
found-has_id id p (u ∷ users) user e = elim (Bool-cases (u.id == id && p u)) [
  | inl t ↦
      let same : some u ≡ some user = rw t at e in
      let k : u ≡ user = cc in
      subst (λ (v : User). has_id v.id (u ∷ users) ≡ true) k (ground (arith, eq_refl u.id))
  | inr t ↦ let rest = found-has_id id p users user (rw t at e) in ground arith
]

pub first-has_id :
    (failing : Bool) (id : String) (p : User → Bool) (users : List User) (user : User)
    → first failing (λ u. u.id == id && p u) users ≡ ok user
    → has_id user.id users ≡ true
first-has_id true id p users user e = cc
first-has_id false id p users user e =
    found-has_id id p users user (found_some (find (λ u. u.id == id && p u) users) e)
  where
    found_some : (o : Option User) → or_not_found o ≡ ok user → o ≡ some user
    found_some none e = cc
    found_some (some u) e = ap some (ok_inj e)

pub none-is_taken :
    (id email : String) (users : List User)
    → has_email email users ≡ false
    → is_taken id email users ≡ false
none-is_taken id email [] h = refl
none-is_taken id email (u ∷ users) h = ground (arith, none-is_taken id email users)

pub none-registered :
    (email name : String) (users : List User)
    → has_email email users ≡ false
    → has_name name users ≡ false
    → any (λ u. u.email == email || u.username == name) users ≡ false
none-registered email name [] h n = refl
none-registered email name (u ∷ users) h n = ground (arith, none-registered email name users)

pub first-up :
    (failing : Bool) (p : User → Bool) (users : List User) (user : User)
    → first failing p users ≡ ok user
    → failing ≡ false
first-up true p users user e = cc
first-up false p users user e = refl
