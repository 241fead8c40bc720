-- ===== src/Users/Tests.antt =====
-- Tests of the user service, and its theorems at concrete inputs.
use cli_relay.Prelude.{
  ◌⊎◌, String, true, false, none, some, [], ◌∷◌, ◌≡◌, refl, sym, eq_iff, arith, inr, ◌==◌, ◌||◌,
}
use cli_relay.Prelude.Int.{pos, ◌≤ℤ◌, ◌+ℤ◌, ◌*ℤ◌}
use cli_relay.Prelude.Results.{Result, ok, err}
use cli_relay.Prelude.Text.{
  trim_space, trim_left, trim_right, split_comma, join_comma, append, byte_length, strip_prefix?,
  take_text, drop_text, length_text,
}
use cli_relay.Auth.{generate_token, parse_token}
use cli_relay.Db.{Base, Database, RedeemCode, Token, User}
use cli_relay.Relay.Access.{extract_bearer_token, model_in_list}
use cli_relay.Relay.Guards.{authorize}
use cli_relay.Relay.Http.{Request, raw, reject, error_response}
use cli_relay.Users.{Services, Config, count}
use cli_relay.Users.Accounts.{
  create_user, register_user, register, login, log_in_as, update_email, write_email,
}
use cli_relay.Users.ApiKeys.{CreateKeyRequest, is_key_of, add_key, create_key, delete_key}
use cli_relay.Users.Csv.{allows, names, names_none, allows-normalize_csv}
use cli_relay.Users.Emails.{Keeps, MayRefuse, update_email-Keeps, register_user-Keeps}
use cli_relay.Users.KeyCount.{create_key-count}
use cli_relay.Users.Plans.{credit, redeem_code}
use cli_relay.Users.Lookups.{has_name}
use cli_relay.Users.Rows.{has_email}
use cli_relay.Users.Redemption.{redeem_code-twice}
use cli_relay.Users.Registration.{login-register}
use cli_relay.Users.Revocation.{authorize-delete_key}
use cli_relay.Users.Text.{distinct_parts, normalize_csv, mask_key, parse_optional_time}

-- A hash is the password itself, and a token the user's id.
abbrev services : Services
services = record {
  parses_address = λ s. true;
  generate_hash = λ salt password. ok password;
  compare_hash = λ hash password. hash == password;
  jwt = record { signed_string = λ secret c. ok c.user_id; verify = λ secret s. none };
  times = record { parse = λ s. none; format = λ t. "" };
}

abbrev config : Config
config = record { jwt_secret = "s"; jwt_expiry = pos 0; max_keys_per_user = pos 2 }

abbrev base_of : String → Base
base_of id = record { id = id; created_at = pos 0; updated_at = pos 0; deleted_at = none }

abbrev token : Token
token = record {
  base = base_of "t1";
  user_id = "u1";
  name = "key";
  key = "sk";
  enabled = true;
  ip_whitelist = "";
  expires_at = none;
  models = "";
  permissions = "";
  unlimited = false;
}

abbrev user : User
user = record {
  base = base_of "u1";
  email = "a@b";
  username = "a";
  password_hash = "p";
  status = "active";
  balance = pos 1;
}

abbrev code : RedeemCode
code = record {
  base = base_of "r1";
  code = "gift";
  value = pos 5;
  used_by = none;
  used_at = none;
  status = "active";
  expires_at = pos 9;
}

abbrev database : Database
database = record {
  failing = false;
  channels = [];
  accounts = [];
  tokens = token ∷ [];
  plans = [];
  token_plans = [];
  users = user ∷ [];
  redeem_codes = code ∷ [];
  logs = [];
}

abbrev request : Request
request = record {
  path = "/v1/messages";
  method = "POST";
  authorization = "Bearer sk";
  remote_ip = "10.0.0.2";
  x_real_ip = "";
  x_forwarded_for = "";
  content = raw "";
}

abbrev key_request : CreateKeyRequest
key_request = record {
  name = " new ";
  ip_whitelist = "";
  expires_at = none;
  models = "gpt, o1,gpt,";
  permissions = "";
}

-- The database that a call leaves, where it succeeds.
abbrev left {ℓ} : {A : Type ℓ} → Result (Database × A) → Database
left (ok (db, a)) = db
left (err e) = database

abbrev left_alone : Result Database → Database
left_alone (ok db) = db
left_alone (err e) = database

users : Unit {0}
unfolding trim_space trim_left trim_right split_comma join_comma append byte_length strip_prefix?
    take_text drop_text length_text generate_token parse_token extract_bearer_token model_in_list
    authorize create_user register_user register login log_in_as add_key create_key delete_key
    credit redeem_code distinct_parts normalize_csv mask_key parse_optional_time ◌+ℤ◌ ◌*ℤ◌
users = tt

texts : (normalize_csv "gpt, o1,gpt," ≡ "gpt,o1") × (mask_key "sk-relay-0123" ≡ "sk-relay****0123")
unfolding users
texts = (refl, refl)

allows-normalize_csv_example :
    allows (normalize_csv "gpt, o1,gpt,") "o1"
    ≡ (names_none "gpt, o1,gpt," || names "gpt, o1,gpt," "o1")
allows-normalize_csv_example = allows-normalize_csv "o1" refl "gpt, o1,gpt,"

-- A list of a comma allows no model, and is stored as one that allows each.
comma_allows : (allows "," "o1" ≡ false) × (allows (normalize_csv ",") "o1" ≡ true)
unfolding users
comma_allows = (refl, refl)

authorize-delete_key_example :
    authorize (left_alone (delete_key services config (pos 1) database "u1" "t1")) request (pos 2)
    ≡ reject (error_response 401 "invalid token")
unfolding users
authorize-delete_key_example =
    authorize-delete_key services config (pos 1) (pos 2) database
      (left_alone (delete_key services config (pos 1) database "u1" "t1")) "u1" "t1" request refl
      refl (inr refl, tt) refl

redeem_code-twice_example :
    redeem_code (pos 3) (left (redeem_code (pos 1) database "u1" "gift")) "u2" "gift"
    ≡ err "invalid or expired code"
unfolding users
redeem_code-twice_example =
    redeem_code-twice (pos 1) (pos 3) database (left (redeem_code (pos 1) database "u1" "gift"))
      "u1" "u2" "gift" "r1" (pos 5) refl (inr refl, tt) refl

create_key-count_example :
    pos (
      count
        (is_key_of "u1")
        (left (create_key services config (pos 1) database "t2" "0a" "u1" key_request)).tokens)
    ≤ℤ pos 2
unfolding users
create_key-count_example =
    create_key-count services config (pos 1) database
      (left (create_key services config (pos 1) database "t2" "0a" "u1" key_request)) "t2" "0a" "u1"
      key_request _ refl

login-register_example :
    login services config
      (pos 1)
      (left (register services config (pos 1) database "u2" "salt" "c@d" " c " "longpassword"))
      "c@d"
      "longpassword"
    ≡ log_in_as services config (pos 1) "u2" (trim_space " c ")
unfolding users
login-register_example =
    login-register services config (pos 1) database
      (left (register services config (pos 1) database "u2" "salt" "c@d" " c " "longpassword")) "u2"
      "salt" "c@d" " c " "longpassword" _
      (λ hash e.
        let same : "longpassword" ≡ hash = ground arith in
        (eq_iff hash "longpassword").1 (sym same))
      refl

update_email-Keeps_example :
    Keeps
      (MayRefuse services config (pos 1) database "u1" "e@f" "p")
      "e@f"
      "duplicate key value violates unique constraint"
      (update_email services config (pos 1) database "u1" "e@f" "p")
update_email-Keeps_example =
    update_email-Keeps services config (pos 1) database "u1" "e@f" "p" (refl, tt) (refl, refl, tt)

abbrev newcomer : User
newcomer = record user { base = base_of "u3"; email = "g@h"; username = "g" }

register_user-Keeps_example :
    Keeps
      ((database.failing ≡ true)
        ⊎ (has_email newcomer.email database.users ≡ true)
        ⊎ (has_name newcomer.username database.users ≡ true))
      newcomer.email
      "email or username already registered"
      (register_user services config (pos 1) database newcomer)
register_user-Keeps_example =
    register_user-Keeps services config (pos 1) database newcomer (refl, tt) (refl, refl, tt) refl

-- The email of a user who has been deleted passes the test of `UpdateEmail`, and the index refuses it.
abbrev deleted : User
deleted = record user { base = record (base_of "u4") { deleted_at = some (pos 0) }; email = "old" }

index_refuses :
    update_email services config
      (pos 1)
      (record database { users = user ∷ deleted ∷ [] })
      "u1"
      "old"
      "p"
    ≡ err "duplicate key value violates unique constraint"
unfolding users update_email write_email
index_refuses = refl
