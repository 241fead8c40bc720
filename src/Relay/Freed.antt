-- ===== src/Relay/Freed.antt =====
-- The counters of the requests under way, once a request is over.
use cli_relay.Prelude.{String, ◌≡◌, ◌∙◌, ap, inl, inr, Bool-cases}
use cli_relay.Prelude.Int.{ℤ, pos, ◌<ℤ◌, FitsInt64}
use cli_relay.Db.{Token}
use cli_relay.Limiter.{ConcurrencyLimiter, active, acquire}
use cli_relay.Limiter.Balance.{acquire-refused, release-acquire}
use cli_relay.Limiter.Refinement.{InRange}
use cli_relay.Relay.Guards.{authorize}
use cli_relay.Relay.Handler.{serve}
use cli_relay.Relay.Http.{Request, Checked, pass, reject}
use cli_relay.Relay.Slots.{SlotsBalanced, serve-SlotsBalanced}
use cli_relay.Relay.State.{Services, Relayer}

module _ (services : Services) (now : ℤ) (r : Relayer) (req : Request)
    (fits : FitsInt64 r.limiter.limit) (limited : pos 0 <ℤ r.limiter.limit)
    (range : InRange r.limiter.limit (active r.limiter.counts)) where
  kept :
      (c : Checked Token) (after : ConcurrencyLimiter)
      → SlotsBalanced r c after
      → (k : String) → active after.counts k ≡ active r.limiter.counts k
  kept (reject e) after h k = ap (λ l. active l.counts k) h
  kept (pass token) after h k = elim (Bool-cases (acquire r.limiter token.id).1) [
    | inl granted ↦
        ap (λ l. active l.counts k) (rw granted at h)
        ∙ release-acquire r.limiter token.id fits limited range granted k
    | inr refused ↦
        ap (λ l. active l.counts k)
          ((rw refused at h) ∙ acquire-refused r.limiter token.id fits limited range refused)
  ]

  -- Where the limit is positive and fits 64 bits, and every counter is between zero and the limit:
  -- when a request and its stream are over, every token has as many requests under way as before.
  pub serve-active :
      (k : String) → active (serve services now r req).limiter.counts k ≡ active r.limiter.counts k
  serve-active =
      kept (authorize r.db req now) (serve services now r req).limiter
        (serve-SlotsBalanced services now r req)
