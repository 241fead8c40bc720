-- ===== src/Billing/Counts.antt =====
-- The plans that count requests, and the methods that serve both kinds of plan. `TimeFormat` stands
-- for `time.Parse` and `Time.Format` with the layout RFC 3339.
use cli_relay.Prelude.{
  String, Bool, false, Option, none, some, List, [], ◌∷◌, if◌then◌else◌, ◌==◌, is_some,
}
use cli_relay.Prelude.Int.{ℤ, pos, ◌+ℤ◌, ◌-ℤ◌, ltb_ℤ, leb_ℤ}
use cli_relay.Prelude.Maps.{lookup, insert}
use cli_relay.Prelude.Results.{Result, ok, err, ◌>>=◌}
use cli_relay.Json.{Json, number, text, unit, to_int}
use cli_relay.Db.{Database, Plan, TokenPlan}
use cli_relay.Db.Queries.{first_by}
use cli_relay.Billing.{
  parse_map, to_float, marshal, usage_of, window_error, unless_over, if_absent, token_plan_of,
  enabled_plan, live_plan, update_plan, add_quota, refund_quota, check_token_limit, with_plan,
}
use cli_relay.Billing.Windows.{parse_window_duration}

pub record TimeFormat : Type 0 where
  pub parse : String → Option ℤ
  pub format : ℤ → String

abbrev pub Map : Type 0
Map = List (String × Json)

-- `decrementCountUsageTx` on one window.
abbrev pub lowered : Json → Json
lowered v = elim (to_float v) [
  | none ↦ v
  | some f ↦ number (if ltb_ℤ (f -ℤ pos unit) (pos 0) then pos 0 else f -ℤ pos unit)
]

abbrev pub lower : String → Map → Option Json → Map
lower window usage none = usage
lower window usage (some v) = insert window (lowered v) usage

unfoldable pub lower_windows : Map → Map → Map
lower_windows usage [] = usage
lower_windows usage ((window, max_count) ∷ limits) =
    lower_windows (lower window usage (lookup window usage)) limits

abbrev write_usage : Database → TokenPlan → ℤ → Map → Result Database
write_usage db tp now usage =
    ok (update_plan db tp.id now (λ row. record row { window_usage = marshal usage }))

unfoldable pub decrement_count_usage : Database → TokenPlan → Plan → ℤ → Result Database
unfolding lower_windows
decrement_count_usage db tp plan now =
    write_usage db tp now (lower_windows (parse_map tp.window_usage) (parse_map plan.limits))

abbrev refund_plan : Database → TokenPlan → ℤ → ℤ → Result Plan → Result Database
refund_plan db tp amount now (err e) = refund_quota db tp now amount
refund_plan db tp amount now (ok plan) =
    if plan.type == "count_based"
    then decrement_count_usage db tp plan now
    else refund_quota db tp now amount

-- `Refund`: returns what a request that failed had consumed.
unfoldable pub refund : Database → String → ℤ → ℤ → Result Database
unfolding decrement_count_usage
refund db token_id amount now =
    with_plan (token_plan_of db token_id) db
      λ tp. refund_plan db tp amount now (live_plan db tp.plan_id)

-- The token's plan that was made last, which `PreConsume` asks for.
unfoldable pub newest_plan_of : Database → String → Result TokenPlan
newest_plan_of db token_id =
    first_by db.failing (λ tp. tp.created_at) (λ tp. tp.token_id == token_id) db.token_plans

module _ (times : TimeFormat) where
  abbrev is_passed : ℤ → Option ℤ → Bool
  is_passed now none = false
  is_passed now (some reset_at) = ltb_ℤ reset_at now

  -- The window's reset time is a time that has passed.
  abbrev pub has_expired : ℤ → Option Json → Bool
  has_expired now (some (text s)) = is_passed now (times.parse s)
  has_expired now _ = false

  -- The usage that `checkCountLimit` reads for a window.
  abbrev pub current_usage : ℤ → Map → Map → String → ℤ
  current_usage now usage resets window =
      if has_expired now (lookup window resets) then pos 0 else usage_of (lookup window usage)

  -- The loop of `checkCountLimit`.
  unfoldable pub check_windows : ℤ → Map → Map → Map → Result (Unit {0})
  check_windows now usage resets [] = ok tt
  check_windows now usage resets ((window, max_count) ∷ limits) =
      let rest = check_windows now usage resets limits in
      elim (to_float max_count) [
        | none ↦ rest
        | some max ↦
            unless_over window (leb_ℤ (to_int max) (current_usage now usage resets window)) rest
      ]

  unfoldable pub check_count_limit : TokenPlan → Plan → ℤ → Result (Unit {0})
  unfolding check_windows
  check_count_limit tp plan now =
      check_windows now (parse_map tp.window_usage) (parse_map tp.window_reset_at)
        (parse_map plan.limits)

  abbrev check_plan : TokenPlan → ℤ → Result Plan → Result (Unit {0})
  check_plan tp now (err e) = if_absent tt e
  check_plan tp now (ok plan) =
      if plan.type == "count_based"
      then check_count_limit tp plan now
      else if plan.type == "token_based"
      then check_token_limit tp plan
      else ok tt

  abbrev check_with : Database → ℤ → Result TokenPlan → Result (Unit {0})
  check_with db now (err e) = if_absent tt e
  check_with db now (ok tp) = check_plan tp now (enabled_plan db tp.plan_id)

  -- `CheckLimit`: whether the token is within the limits of its plan.
  unfoldable pub check_limit : Database → String → ℤ → Result (Unit {0})
  unfolding check_count_limit
  check_limit db token_id now = check_with db now (token_plan_of db token_id)

  -- A window whose reset time has passed, or that has no usage yet, starts at zero.
  abbrev pub fresh_usage : ℤ → Map → Map → String → Map
  fresh_usage now usage resets window =
      let reset =
        if has_expired now (lookup window resets)
        then insert window (number (pos 0)) usage
        else usage in
      if is_some (lookup window reset) then reset else insert window (number (pos 0)) reset

  abbrev counted : Map → String → ℤ → Option ℤ → Result Map
  counted usage window max none = ok (insert window (number (pos unit)) usage)
  counted usage window max (some f) =
      if leb_ℤ (to_int max) (to_int f)
      then err (window_error window)
      else ok (insert window (number (f +ℤ pos unit)) usage)

  abbrev float_at : Option Json → Option ℤ
  float_at none = none
  float_at (some v) = to_float v

  -- One window of `incrementCountUsageTx`: its count, and the time at which it resets.
  unfoldable pub count_window : ℤ → Map → Map → String → ℤ → Result Map
  count_window now usage resets window max =
      let fresh = fresh_usage now usage resets window in
      counted fresh window max (float_at (lookup window fresh))

  abbrev pub schedule : ℤ → Map → String → Map
  schedule now resets window =
      if is_some (lookup window resets)
      then resets
      else insert window (text (times.format (now +ℤ parse_window_duration window))) resets

  unfoldable pub count_windows : ℤ → Map → Map → Map → Result (Map × Map)
  unfolding count_window
  count_windows now usage resets [] = ok (usage, resets)
  count_windows now usage resets ((window, max_count) ∷ limits) = elim (to_float max_count) [
    | none ↦ count_windows now usage resets limits
    | some max ↦ count_window now usage resets window max >>= λ usage'.
        count_windows now usage' (schedule now resets window) limits
  ]

  abbrev write_counts : Database → TokenPlan → ℤ → Map × Map → Result Database
  write_counts db tp now (usage, resets) = ok (
      update_plan db tp.id now
        (λ row. record row { window_usage = marshal usage; window_reset_at = marshal resets }))

  unfoldable pub increment_count_usage : Database → TokenPlan → Plan → ℤ → Result Database
  unfolding count_windows
  increment_count_usage db tp plan now =
      count_windows now (parse_map tp.window_usage) (parse_map tp.window_reset_at)
        (parse_map plan.limits)
      >>= write_counts db tp now

  abbrev consume_plan : Database → TokenPlan → ℤ → ℤ → Result Plan → Result Database
  consume_plan db tp estimated now (err e) = ok db
  consume_plan db tp estimated now (ok plan) =
      if plan.type == "count_based"
      then increment_count_usage db tp plan now
      else if plan.type == "token_based"
      then add_quota db tp now estimated
      else ok db

  -- `PreConsume`: counts the request, or takes its estimate from the quota.
  unfoldable pub pre_consume : Database → String → ℤ → ℤ → Result Database
  unfolding increment_count_usage
  pre_consume db token_id estimated now =
      with_plan (newest_plan_of db token_id) db
        λ tp. consume_plan db tp estimated now (enabled_plan db tp.plan_id)
