-- ===== src/Billing/Ledger.antt =====
-- A request on a metered token, from `PreConsume` to `Refund` or `RefundAndSettle` of
-- internal/relay/billing.go.
use cli_relay.Prelude.{
  String, false, some, ◌≡◌, refl, arith, ap, ◌∙◌, ◌==◌, eq_refl, Bool-cases, inl, inr,
}
use cli_relay.Prelude.Int.{ℤ, pos, ◌+ℤ◌, ◌-ℤ◌, ◌≤ℤ◌, ltb_ℤ, max_ℤ, FitsInt64, int_laws}
use cli_relay.Prelude.Results.{ok}
use cli_relay.Db.{Database, Plan, TokenPlan}
use cli_relay.Billing.{add_quota, refund_quota, actual_cost, refund_and_settle, settle}
use cli_relay.Billing.Counts.{TimeFormat, newest_plan_of, pre_consume, refund}
use cli_relay.Billing.Quota.{
  IsFound, with_quota, with_quota-IsFound, update_quota_lem, quota_of, quota_of-with_quota,
  quota_of-IsFound, change, token_plan_of_lem,
}

module _ (db : Database) (token_id : String) (tp : TokenPlan) (plan : Plan)
    (f : IsFound db token_id tp plan) (now : ℤ) where
  pre_consume_lem :
      (times : TimeFormat) (estimated : ℤ)
      → newest_plan_of db token_id ≡ ok tp
      → FitsInt64 (tp.used_quota +ℤ estimated)
      → pre_consume times db token_id estimated now
        ≡ ok (with_quota db tp.id now (λ q. q +ℤ estimated))
  unfolding pre_consume add_quota
  pre_consume_lem times estimated newest h =
      rw (newest, f.enabled, f.metered)
        (update_quota_lem db token_id tp plan f now (λ q. q +ℤ estimated) (λ q. q +ℤ estimated) h)

  refund_lem :
      (amount : ℤ)
      → FitsInt64 (tp.used_quota -ℤ amount)
      → refund db token_id amount now
        ≡ ok (with_quota db tp.id now (λ q. max_ℤ (pos 0) (q -ℤ amount)))
  unfolding refund refund_quota
  refund_lem amount h =
      rw (token_plan_of_lem db token_id tp plan f now, f.live, f.metered)
        (update_quota_lem db token_id tp plan f now (λ q. q -ℤ amount)
          (λ q. max_ℤ (pos 0) (q -ℤ amount)) h)

  refund_and_settle_lem :
      (est prompt_tokens completion_tokens : ℤ) (model : String)
      → FitsInt64 (tp.used_quota -ℤ est)
      → refund_and_settle db token_id est prompt_tokens completion_tokens model now
        ≡ settle tp now
            (actual_cost plan model prompt_tokens completion_tokens)
            (with_quota db tp.id now (λ q. max_ℤ (pos 0) (q -ℤ est)))
  unfolding refund_and_settle refund_quota
  refund_and_settle_lem est prompt_tokens completion_tokens model h =
      rw (token_plan_of_lem db token_id tp plan f now, f.live, f.metered)
        (rw (
          update_quota_lem db token_id tp plan f now (λ q. q -ℤ est) (λ q. max_ℤ (pos 0) (q -ℤ est))
            h))

  -- Settling adds the cost, if it is positive, to the row alone.
  settle_lem :
      (actual : ℤ)
      → FitsInt64 (tp.used_quota +ℤ max_ℤ (pos 0) actual)
      → (db' : Database) × (settle tp now actual db ≡ ok db')
        × (quota_of db' tp.id ≡ some (tp.used_quota +ℤ max_ℤ (pos 0) actual))
        × ((j : String) → (tp.id == j) ≡ false → quota_of db' j ≡ quota_of db j)
  unfolding add_quota
  settle_lem actual h = elim (Bool-cases (ltb_ℤ (pos 0) actual)) [
    | inl cost ↦ (
      with_quota db tp.id now (λ q. q +ℤ actual),
      rw cost (
          update_quota_lem db token_id tp plan f now (λ q. q +ℤ actual) (λ q. q +ℤ actual)
            (rw cost at h)),
      rw (quota_of-with_quota, eq_refl, quota_of-IsFound db token_id tp plan f, cost),
      λ j other. rw (quota_of-with_quota, other),
    )
    | inr free ↦ (
      db,
      rw free,
      rw (quota_of-IsFound db token_id tp plan f, free) (ap some (omega int_laws)),
      λ j other. refl,
    )
  ]

-- The greatest of zero and what is left after giving back what was taken.
take_and_give : (q e : ℤ) → pos 0 ≤ℤ q → max_ℤ (pos 0) (q +ℤ e -ℤ e) ≡ q
take_and_give q e h = rw (cancel q e) (ground arith)
  where
    cancel : (q e : ℤ) → q +ℤ e -ℤ e ≡ q
    cancel q e = omega int_laws

module _ (times : TimeFormat) (db : Database) (token_id : String) (tp : TokenPlan) (plan : Plan)
    (f : IsFound db token_id tp plan) (newest : newest_plan_of db token_id ≡ ok tp)
    (est started ended : ℤ) (nonneg : pos 0 ≤ℤ tp.used_quota) (fits : FitsInt64 tp.used_quota)
    (taken : FitsInt64 (tp.used_quota +ℤ est)) where
  abbrev after_consume : Database
  after_consume = with_quota db tp.id started (λ q. q +ℤ est)

  abbrev consumed : TokenPlan
  consumed = change (λ q. q +ℤ est) started tp

  abbrev after_refund : Database
  after_refund = with_quota after_consume tp.id ended (λ q. max_ℤ (pos 0) (q -ℤ est))

  given_back : FitsInt64 (tp.used_quota +ℤ est -ℤ est)
  given_back = omega int_laws

  consumed-IsFound : IsFound after_consume token_id consumed plan
  consumed-IsFound = with_quota-IsFound db token_id tp plan f started (λ q. q +ℤ est)

  refunded-IsFound :
      IsFound after_refund token_id (change (λ q. max_ℤ (pos 0) (q -ℤ est)) ended consumed) plan
  refunded-IsFound =
      with_quota-IsFound after_consume token_id consumed plan consumed-IsFound ended
        (λ q. max_ℤ (pos 0) (q -ℤ est))

  unchanged : (j : String) → (tp.id == j) ≡ false → quota_of after_refund j ≡ quota_of db j
  unchanged j other = rw (quota_of-with_quota, other, quota_of-with_quota, other)

  -- For a token whose newest plan row is the one that its query finds, whose plan counts tokens
  -- and is in force, and whose quota is not negative and fits 64 bits with the estimate: a request
  -- that is pre-consumed and then refunded leaves every quota as it was.
  pub refund-pre_consume :
      (paid back : Database) × (pre_consume times db token_id est started ≡ ok paid)
      × (refund paid token_id est ended ≡ ok back)
      × (quota_of back tp.id ≡ some tp.used_quota)
      × ((j : String) → (tp.id == j) ≡ false → quota_of back j ≡ quota_of db j)
  refund-pre_consume = (
    after_consume,
    after_refund,
    pre_consume_lem db token_id tp plan f started times est newest taken,
    refund_lem after_consume token_id consumed plan consumed-IsFound ended est given_back,
    quota_of-IsFound after_refund token_id _ plan refunded-IsFound
        ∙ ap some (take_and_give tp.used_quota est nonneg),
    unchanged,
  )

  -- For a token whose newest plan row is the one that its query finds, whose plan counts tokens
  -- and is in force, and whose quota is not negative and fits 64 bits with the estimate and with
  -- the cost: a request that is pre-consumed and then settled adds its actual cost, if that is
  -- positive, to the token's quota, and changes no other.
  pub refund_and_settle-pre_consume :
      (prompt_tokens completion_tokens : ℤ) (model : String)
      → let cost = max_ℤ (pos 0) (actual_cost plan model prompt_tokens completion_tokens) in
        FitsInt64 (tp.used_quota +ℤ cost)
        → (paid settled : Database) × (pre_consume times db token_id est started ≡ ok paid)
          × (refund_and_settle paid token_id est prompt_tokens completion_tokens model ended
              ≡ ok settled)
          × (quota_of settled tp.id ≡ some (tp.used_quota +ℤ cost))
          × ((j : String) → (tp.id == j) ≡ false → quota_of settled j ≡ quota_of db j)
  unfolding add_quota
  refund_and_settle-pre_consume prompt_tokens completion_tokens model h =
      let actual = actual_cost plan model prompt_tokens completion_tokens in
      let same = take_and_give tp.used_quota est nonneg in
      let (settled, done, charged, others) =
        settle_lem after_refund token_id _ plan refunded-IsFound ended actual (rw same h) in
      (
        after_consume,
        settled,
        pre_consume_lem db token_id tp plan f started times est newest taken,
        refund_and_settle_lem after_consume token_id consumed plan consumed-IsFound ended est
              prompt_tokens completion_tokens model given_back
            ∙ done,
        charged ∙ ap (λ q. some (q +ℤ max_ℤ (pos 0) actual)) same,
        λ j other. others j other ∙ unchanged j other,
      )
