-- ===== src/Users/Plans.antt =====
-- internal/user/service.go: a user's plan, and the codes that add to a balance.
use cli_relay.Prelude.{
  String, Bool, some, List, [], ◌∷◌, ◌++◌, if◌then◌else◌, ◌==◌, ◌&&◌, not, any, leb, filter,
  update_where,
}
use cli_relay.Prelude.Int.{ℤ, pos, ◌+ℤ◌, ltb_ℤ, fits_int64}
use cli_relay.Prelude.Results.{Result, ok, err, ◌>>=◌, guard}
use cli_relay.Json.{null}
use cli_relay.Billing.{enabled_plan}
use cli_relay.Db.{Database, RedeemCode, Token, TokenPlan}
use cli_relay.Db.Queries.{first}
use cli_relay.Users.{count_rows, or_message, new_base}
use cli_relay.Users.ApiKeys.{is_key_of}

-- The join of `token_plans` with the live tokens of a user.
abbrev pub is_plan_of : Database → String → TokenPlan → Bool
is_plan_of db user_id tp = any (λ t. t.id == tp.token_id && is_key_of user_id t) db.tokens

pub record SubscriptionResponse : Type 0 where
  pub plan_id : String
  pub plan_name : String
  pub plan_type : String
  pub status : String

unfoldable pub get_subscription : Database → String → Result SubscriptionResponse
get_subscription db user_id = do
  tp ← or_message "no active subscription" (first db.failing (is_plan_of db user_id) db.token_plans)
  plan ← or_message "plan not found" (enabled_plan db tp.plan_id)
  ok (record {
    plan_id = tp.plan_id;
    plan_name = plan.name;
    plan_type = plan.type;
    status = "active";
  })

module _ (now : ℤ) where
  abbrev new_token_plan : String → String → String → TokenPlan
  new_token_plan id token_id plan_id = record {
    base = new_base id now;
    token_id = token_id;
    plan_id = plan_id;
    window_usage = null;
    window_reset_at = null;
    used_quota = pos 0;
  }

  -- The loop of `Subscribe`: a row for each token, whose id is drawn by `new_id`.
  unfoldable pub attach : (String → String) → String → List Token → List TokenPlan
  attach new_id plan_id [] = []
  attach new_id plan_id (t ∷ ts) =
      new_token_plan (new_id t.id) t.id plan_id ∷ attach new_id plan_id ts

  abbrev some_tokens : List Token → Result (List Token)
  some_tokens [] = err "no API key found"
  some_tokens (t ∷ ts) = ok (t ∷ ts)

  unfoldable pub subscribe : Database → (String → String) → String → String → Result Database
  subscribe db new_id user_id plan_id = do
    plan ← or_message "plan not found" (enabled_plan db plan_id)
    u ←
        guard (leb (count_rows db.failing (is_plan_of db user_id) db.token_plans) 0)
          "already subscribed to a plan"
    tokens ← some_tokens (filter (is_key_of user_id) db.tokens)
    ok (record db { token_plans = db.token_plans ++ attach new_id plan.id tokens })

  abbrev pub mark_used : String → RedeemCode → RedeemCode
  mark_used user_id code = record code {
    used_by = some user_id;
    used_at = some now;
    status = "used";
    base = record code.base { updated_at = now };
  }

  abbrev pub is_redeemable : String → RedeemCode → Bool
  is_redeemable code row = row.code == code && (row.status == "active" && ltb_ℤ now row.expires_at)

  -- `balance + ?`, which fails where it leaves a bigint.
  unfoldable pub credit : Database → String → ℤ → Result Database
  credit db user_id value =
      if any (λ u. u.id == user_id && not (fits_int64 (u.balance +ℤ value))) db.users
      then err "bigint out of range"
      else ok (record db {
        users =
            update_where (λ u. u.id == user_id)
              (λ u. record u {
                balance = u.balance +ℤ value;
                base = record u.base { updated_at = now };
              })
              db.users;
      })

  unfoldable pub redeem_code : Database → String → String → Result (Database × ℤ)
  redeem_code db user_id code = do
    row ←
        or_message "invalid or expired code" (first db.failing (is_redeemable code) db.redeem_codes)
    credited ← credit db user_id row.value
    ok (
      record credited {
        redeem_codes = update_where (λ r. r.id == row.id) (mark_used user_id) db.redeem_codes;
      },
      row.value,
    )
