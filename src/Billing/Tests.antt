-- ===== src/Billing/Tests.antt =====
-- Tests of the billing service, and its theorems at concrete inputs.
use cli_relay.Prelude.{
  String, true, false, none, some, [], ◌∷◌, ◌≡◌, ◌↔◌, refl, arith, All, inr, ◌==◌, if◌then◌else◌,
}
use cli_relay.Prelude.Int.{ℤ, pos, ◌+ℤ◌, ◌-ℤ◌, ◌*ℤ◌, int64, max_ℤ}
use cli_relay.Prelude.Maps.{lookup, insert}
use cli_relay.Prelude.Text.{append}
use cli_relay.Prelude.Results.{ok, err}
use cli_relay.Json.{Json, number, text, object, end, field}
use cli_relay.Db.{Base, Database, Plan, TokenPlan}
use cli_relay.Billing.{
  marshal, parse_map, actual_cost, refund_and_settle, token_plan_of, enabled_plan, live_plan,
  update_quota, add_quota, refund_quota, check_token_limit, window_error,
}
use cli_relay.Billing.Counts.{
  TimeFormat, Map, newest_plan_of, pre_consume, refund, check_limit, check_windows, count_windows,
  count_window, increment_count_usage, check_count_limit,
}
use cli_relay.Billing.Check.{HasRoom, check_count_limit_iff}
use cli_relay.Billing.Quota.{IsFound, quota_of}
use cli_relay.Billing.Ledger.{refund-pre_consume, refund_and_settle-pre_consume}
use cli_relay.Billing.Stale.{serve_all, serve_all-stale}

-- A layout that knows the one time 10.
abbrev times : TimeFormat
times = record { parse = λ s. if s == "T10" then some (pos 10) else none; format = λ _. "T10" }

abbrev base_of : String → Base
base_of id = record { id = id; created_at = pos 0; updated_at = pos 0; deleted_at = none }

abbrev number_field : String → ℤ → Json
number_field k v = object (field k (number v) end)

abbrev pub metered : Plan
metered = record {
  base = base_of "p1";
  name = "metered";
  type = "token_based";
  limits = object end;
  model_ratios = number_field "gpt" (pos 2000000);
  completion_ratio = object end;
  token_quota = pos 5000;
  enabled = true;
}

abbrev pub held : TokenPlan
held = record {
  base = base_of "tp1";
  token_id = "t1";
  plan_id = "p1";
  window_usage = object end;
  window_reset_at = object end;
  used_quota = pos 300;
}

abbrev pub database : Database
database = record {
  failing = false;
  channels = [];
  accounts = [];
  tokens = [];
  plans = metered ∷ [];
  token_plans = held ∷ [];
  users = [];
  redeem_codes = [];
  logs = [];
}

billing : Unit {0}
unfolding pre_consume refund refund_and_settle actual_cost token_plan_of enabled_plan live_plan
    update_quota add_quota refund_quota newest_plan_of check_limit check_windows count_windows
    count_window increment_count_usage check_count_limit check_token_limit lookup insert append ◌+ℤ◌
    ◌-ℤ◌ ◌*ℤ◌ int64
billing = tt

pub held-IsFound : IsFound database "t1" held metered
unfolding billing
held-IsFound = record {
  up = refl;
  found = refl;
  holds = (inr refl, tt);
  enabled = refl;
  live = refl;
  metered = refl;
}

cost : actual_cost metered "gpt" (pos 10) (pos 7) ≡ pos 24
unfolding billing
cost = refl

pub newest : newest_plan_of database "t1" ≡ ok held
unfolding billing
newest = refl

refund-pre_consume_example :
    (paid back : Database) × (pre_consume times database "t1" (pos 100) (pos 1) ≡ ok paid)
    × (refund paid "t1" (pos 100) (pos 2) ≡ ok back)
    × (quota_of back "tp1" ≡ some (pos 300))
    × ((j : String) → ("tp1" == j) ≡ false → quota_of back j ≡ quota_of database j)
unfolding billing
refund-pre_consume_example =
    refund-pre_consume times database "t1" held metered held-IsFound newest (pos 100) (pos 1)
      (pos 2) (omega arith) (omega arith) (omega arith)

refund_and_settle-pre_consume_example :
    (paid settled : Database) × (pre_consume times database "t1" (pos 100) (pos 1) ≡ ok paid)
    × (refund_and_settle paid "t1" (pos 100) (pos 10) (pos 7) "gpt" (pos 2) ≡ ok settled)
    × (quota_of settled "tp1"
        ≡ some (pos 300 +ℤ max_ℤ (pos 0) (actual_cost metered "gpt" (pos 10) (pos 7))))
    × ((j : String) → ("tp1" == j) ≡ false → quota_of settled j ≡ quota_of database j)
unfolding billing
refund_and_settle-pre_consume_example =
    refund_and_settle-pre_consume times database "t1" held metered held-IsFound newest (pos 100)
      (pos 1) (pos 2) (omega arith) (omega arith) (omega arith) (pos 10) (pos 7) "gpt" (omega arith)

-- One window of five requests, whose reset time is 10.
abbrev limits : Map
limits = ("5h", number (pos 5000000)) ∷ []

abbrev resets : Map
resets = ("5h", text "T10") ∷ []

-- The plan of that window, and the record of three requests in it.
abbrev counting : Plan
counting = record metered { type = "count_based"; limits = marshal limits }

abbrev used : TokenPlan
used = record held {
  window_usage = marshal (("5h", number (pos 3000000)) ∷ []);
  window_reset_at = marshal resets;
}

check_count_limit_iff_example :
    (check_count_limit times used counting (pos 3) ≡ ok tt)
    ↔ All
        (HasRoom times (pos 3) (parse_map used.window_usage) (parse_map used.window_reset_at))
        (parse_map counting.limits)
check_count_limit_iff_example = check_count_limit_iff times used counting (pos 3)

full :
    check_windows times (pos 3) (("5h", number (pos 5000000)) ∷ []) resets limits
    ≡ err (window_error "5h")
unfolding billing
full = refl

serve_all-stale_example :
    (usage' : Map) × (serve_all times (pos 12 ∷ pos 13 ∷ []) [] resets limits ≡ ok (usage', resets))
unfolding billing
serve_all-stale_example =
    serve_all-stale times (pos 11) (pos 12 ∷ pos 13 ∷ []) [] resets limits
      ((pos 5000000, refl, omega arith, refl), tt) (omega arith, (omega arith, tt))
