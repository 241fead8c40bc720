-- ===== src/Billing.antt =====
-- internal/relay/billing.go: plan limits and quotas. A service method takes the database and gives it
-- back. The order in which Go ranges over a plan's limits is the order of the list.
-- Times are nanoseconds. `Counts` has the windows of the plans that count requests.
pub mod Windows
pub mod Counts
pub mod Check
pub mod Quota
pub mod Ledger
pub mod Stale
pub mod Tests
use cli_relay.Prelude.{
  String, Bool, true, false, Option, none, some, List, [], ◌∷◌, if◌then◌else◌, ◌==◌, ◌&&◌, not,
  is_some, any, update_where,
}
use cli_relay.Prelude.Int.{ℤ, pos, ◌+ℤ◌, ◌-ℤ◌, ◌*ℤ◌, ltb_ℤ, leb_ℤ, int64, fits_int64, max_ℤ, quot_ℕ}
use cli_relay.Prelude.Maps.{lookup, insert}
use cli_relay.Prelude.Text.{append}
use cli_relay.Prelude.Results.{Result, ok, err, ◌>>=◌, ◌>>◌, guard}
use cli_relay.Json.{
  unit, Json, null, boolean, number, text, array, object, unit, of_int, to_int, decode_fields,
  encode_fields,
}
use cli_relay.Db.{Database, Plan, TokenPlan, User}
use cli_relay.Db.Queries.{first, is_not_found, is_live}

-- `parseMap`: what is no JSON object reads as the empty map.
abbrev pub parse_map : Json → List (String × Json)
parse_map (object fs) = decode_fields [] fs
parse_map _ = []

-- `toFloat`: of what JSON decodes to, only a number.
abbrev pub to_float : Json → Option ℤ
to_float (number f) = some f
to_float _ = none

abbrev pub marshal : List (String × Json) → Json
marshal m = object (encode_fields m)

abbrev pub usage_of : Option Json → ℤ
usage_of none = pos 0
usage_of (some v) = elim (to_float v) [ none ↦ pos 0 | some f ↦ to_int f ]

abbrev pub window_error : String → String
window_error window = append "rate limit exceeded for window " window

abbrev unless_over : String → Bool → Result (Unit {0}) → Result (Unit {0})
unless_over window true rest = err (window_error window)
unless_over window false rest = rest

-- The answer to a query that found no row: there is nothing to check or to change.
abbrev pub if_absent {ℓ} : {A : Type ℓ} → A → String → Result A
if_absent a e = if is_not_found e then ok a else err e

unfoldable pub token_plan_of : Database → String → Result TokenPlan
token_plan_of db token_id = first db.failing (λ tp. tp.token_id == token_id) db.token_plans

-- The plan of this id that is enabled and not deleted; and the one that is not deleted.
unfoldable pub enabled_plan : Database → String → Result Plan
enabled_plan db plan_id =
    first db.failing (λ plan. plan.id == plan_id && plan.enabled && is_live plan.deleted_at)
      db.plans

unfoldable pub live_plan : Database → String → Result Plan
live_plan db plan_id =
    first db.failing (λ plan. plan.id == plan_id && is_live plan.deleted_at) db.plans

-- `tx.Model(tp).Updates(...)`: the row of this id, with its `updated_at`.
abbrev pub update_plan : Database → String → ℤ → (TokenPlan → TokenPlan) → Database
update_plan db id now change = record db {
  token_plans =
      update_where (λ tp. tp.id == id)
        (λ tp. record (change tp) { base = record tp.base { updated_at = now } }) db.token_plans;
}

-- `used_quota` becomes the value of an SQL expression, which fails where it leaves a bigint.
unfoldable pub update_quota : Database → String → ℤ → (ℤ → ℤ) → (ℤ → ℤ) → Result Database
update_quota db id now raw value =
    if db.failing
    then err "database is unavailable"
    else if any (λ tp. tp.id == id && not (fits_int64 (raw tp.used_quota))) db.token_plans
    then err "bigint out of range"
    else ok (update_plan db id now (λ row. record row { used_quota = value row.used_quota }))

-- `used_quota + ?`, and `GREATEST(0, used_quota - ?)`.
unfoldable pub add_quota : Database → TokenPlan → ℤ → ℤ → Result Database
unfolding update_quota
add_quota db tp now amount = update_quota db tp.id now (λ q. q +ℤ amount) (λ q. q +ℤ amount)

unfoldable pub refund_quota : Database → TokenPlan → ℤ → ℤ → Result Database
unfolding update_quota
refund_quota db tp now amount =
    update_quota db tp.id now (λ q. q -ℤ amount) (λ q. max_ℤ (pos 0) (q -ℤ amount))

unfoldable pub check_token_limit : TokenPlan → Plan → Result (Unit {0})
check_token_limit tp plan =
    if ltb_ℤ (pos 0) plan.token_quota && leb_ℤ plan.token_quota tp.used_quota
    then err "token quota exceeded"
    else ok tt

-- The ratio of the model, 1 where the plan gives none, and the tokens that a request is charged.
abbrev pub ratio_of : Option Json → ℤ
ratio_of none = pos unit
ratio_of (some v) = elim (to_float v) [ none ↦ pos unit | some f ↦ f ]

unfoldable pub actual_cost : Plan → String → ℤ → ℤ → ℤ
actual_cost plan model prompt_tokens completion_tokens = to_int (
    of_int prompt_tokens
    +ℤ completion_tokens *ℤ ratio_of (lookup model (parse_map plan.model_ratios)))

abbrev pub settle : TokenPlan → ℤ → ℤ → Database → Result Database
settle tp now actual db = if ltb_ℤ (pos 0) actual then add_quota db tp now actual else ok db

abbrev best_effort : Database → Result Database → Result Database
best_effort db (ok db') = ok db'
best_effort db (err e) = ok db

abbrev refund_and_settle_plan :
    Database → TokenPlan → String → ℤ → ℤ → ℤ → ℤ → Result Plan → Result Database
refund_and_settle_plan db tp model est prompt_tokens completion_tokens now (err e) =
    if is_not_found e then best_effort db (refund_quota db tp now est) else err e
refund_and_settle_plan db tp model est prompt_tokens completion_tokens now (ok plan) =
    if plan.type == "count_based" then ok db else (do
      refunded ← refund_quota db tp now est
      settle tp now (actual_cost plan model prompt_tokens completion_tokens) refunded)

abbrev pub with_plan : Result TokenPlan → Database → (TokenPlan → Result Database) → Result Database
with_plan (err e) db use_plan = if_absent db e
with_plan (ok tp) db use_plan = use_plan tp

-- `RefundAndSettle`: gives the estimate back and charges what the request used.
unfoldable pub refund_and_settle : Database → String → ℤ → ℤ → ℤ → String → ℤ → Result Database
unfolding refund_quota add_quota actual_cost
refund_and_settle db token_id est prompt_tokens completion_tokens model now =
    with_plan (token_plan_of db token_id) db λ tp.
      refund_and_settle_plan db tp model est prompt_tokens completion_tokens now
        (live_plan db tp.plan_id)

-- `CheckUserBalance`. A plan on the token that is in force makes the balance irrelevant.
abbrev pub has_plan_in_force : Database → String → Bool
has_plan_in_force db token_id =
    any
      (λ tp.
        tp.token_id == token_id
        && any (λ plan. plan.id == tp.plan_id && plan.enabled && is_live plan.deleted_at) db.plans)
      db.token_plans

abbrev balance_of : Bool → Result User → Result (Unit {0})
balance_of planned (err e) = if is_not_found e then err "user not found or inactive" else err e
balance_of planned (ok user) =
    if planned
    then ok tt
    else if leb_ℤ user.balance (pos 0)
    then err "insufficient user balance"
    else ok tt

unfoldable pub check_user_balance : Database → String → String → Result (Unit {0})
check_user_balance db user_id token_id = balance_of (has_plan_in_force db token_id) (
    first db.failing
      (λ user. user.id == user_id && user.status == "active" && is_live user.deleted_at) db.users)
