-- ===== src/Db.antt =====
-- internal/db: the rows that the program reads and writes, and the queries of GORM on them.
-- A row's UUID is its text, a time is its nanoseconds since the epoch, a table is the list of its
-- rows in the order of their primary keys. `failing` is a database that answers every query with an
-- error. A text column that holds JSON is the value that the text stands for.
pub mod Queries
use cli_relay.Json.{Json}
use cli_relay.Prelude.{String, Bool, Option, List}
use cli_relay.Prelude.Int.{ℤ}

pub record Base : Type 0 where
  pub id : String
  pub created_at : ℤ
  pub updated_at : ℤ
  pub deleted_at : Option ℤ

pub record Channel : Type 0 where
  pub base : Base
  pub open base use *
  pub name : String
  pub type : String
  pub endpoint : String
  pub enabled : Bool
  pub models : String
  pub priority : ℤ
  pub api_format : String
  pub force_stream : Bool
  pub affinity_ttl : ℤ

pub record Account : Type 0 where
  pub base : Base
  pub open base use *
  pub channel_id : String
  pub name : String
  pub credentials : String
  pub cred_type : String
  pub weight : ℤ
  pub enabled : Bool
  pub cooldown_until : Option ℤ
  pub refresh_token : String
  pub token_expiry : Option ℤ
  pub client_id : String
  pub client_secret : String
  pub token_url : String

pub record Token : Type 0 where
  pub base : Base
  pub open base use *
  pub user_id : String
  pub name : String
  pub key : String
  pub enabled : Bool
  pub ip_whitelist : String
  pub expires_at : Option ℤ
  pub models : String
  pub permissions : String
  pub unlimited : Bool

pub record Plan : Type 0 where
  pub base : Base
  pub open base use *
  pub name : String
  pub type : String
  pub limits : Json
  pub model_ratios : Json
  pub completion_ratio : Json
  pub token_quota : ℤ
  pub enabled : Bool

pub record TokenPlan : Type 0 where
  pub base : Base
  pub open base use *
  pub token_id : String
  pub plan_id : String
  pub window_usage : Json
  pub window_reset_at : Json
  pub used_quota : ℤ

pub record User : Type 0 where
  pub base : Base
  pub open base use *
  pub email : String
  pub username : String
  pub password_hash : String
  pub status : String
  pub balance : ℤ

pub record RedeemCode : Type 0 where
  pub base : Base
  pub open base use *
  pub code : String
  pub value : ℤ
  pub used_by : Option String
  pub used_at : Option ℤ
  pub status : String
  pub expires_at : ℤ

pub record Log : Type 0 where
  pub token_id : String
  pub channel_id : String
  pub account_id : String
  pub model : String
  pub is_stream : Bool
  pub prompt_tokens : ℤ
  pub completion_tokens : ℤ
  pub total_tokens : ℤ
  pub latency_ms : ℤ
  pub status_code : ℤ

pub record Database : Type 0 where
  pub failing : Bool
  pub channels : List Channel
  pub accounts : List Account
  pub tokens : List Token
  pub plans : List Plan
  pub token_plans : List TokenPlan
  pub users : List User
  pub redeem_codes : List RedeemCode
  pub logs : List Log
