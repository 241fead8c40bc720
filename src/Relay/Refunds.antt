-- ===== src/Relay/Refunds.antt =====
-- The quotas around a streamed request that fails, in internal/relay/handler.go and
-- internal/relay/billing.go.
use cli_relay.Prelude.{
  ℕ, String, Bool, true, false, List, ◌∷◌, length, ◌≡◌, refl, sym, subst, ◌∙◌, arith, inl, inr,
  Bool-cases, ◌==◌, eq_iff, leb,
}
use cli_relay.Prelude.Int.{ℤ, pos, ◌+ℤ◌, ◌≤ℤ◌, FitsInt64}
use cli_relay.Prelude.Results.{ok, Result-cases}
use cli_relay.Billing.Counts.{newest_plan_of}
use cli_relay.Billing.Ledger.{refund-pre_consume}
use cli_relay.Billing.Quota.{IsFound, quota_of, quota_of-IsFound}
use cli_relay.Db.{Account, Plan, TokenPlan}
use cli_relay.Relay.Buffered.{upstream_request}
use cli_relay.Relay.Handler.{consumed, handle_streaming}
use cli_relay.Relay.Http.{Response, UpstreamRequest}
use cli_relay.Relay.Settling.{Job, give_back, write_log, refund_and_error, refund_on_error}
use cli_relay.Relay.State.{Services, Relayer, free_slot}

write_log-quota :
    (r : Relayer) (job : Job) (a : Account) (stream : Bool) (pt ct : ℤ) (status : ℕ) (now : ℤ)
    (id : String)
    → quota_of (write_log r job a stream pt ct status now).db id ≡ quota_of r.db id
unfolding write_log
write_log-quota r job a stream pt ct status now id = elim (Bool-cases r.db.failing) [
  | inl down ↦ rw down refl
  | inr up ↦ rw up refl
]

module _ (services : Services) (now : ℤ) (r : Relayer) (job : Job) (tp : TokenPlan) (plan : Plan)
    (billed : r.has_billing ≡ true) (f : IsFound r.db job.token.id tp plan)
    (newest : newest_plan_of r.db job.token.id ≡ ok tp) (nonneg : pos 0 ≤ℤ tp.used_quota)
    (fits : FitsInt64 tp.used_quota) (taken : FitsInt64 (tp.used_quota +ℤ job.est_tokens)) where
  -- The state in which the request is dispatched, its estimate taken, after the calls made since.
  abbrev paying : List UpstreamRequest → Relayer
  paying sent = record (consumed services now r job.token job.est_tokens) { sent = sent }

  give_back-quota :
      (sent : List UpstreamRequest) (id : String)
      → quota_of
          (give_back (free_slot (paying sent) job.token.id) job.token.id job.est_tokens now).db
          id
        ≡ quota_of r.db id
  give_back-quota sent id =
      let (paid, back, took, gave, own, others) =
        refund-pre_consume services.times r.db job.token.id tp plan f newest job.est_tokens now now
          nonneg fits taken in
      let same : quota_of back id ≡ quota_of r.db id = elim (Bool-cases (tp.id == id)) [
        | inl here ↦
            subst (λ j. quota_of back j ≡ quota_of r.db j) ((eq_iff tp.id id).0 here)
              (own ∙ sym (quota_of-IsFound r.db job.token.id tp plan f))
        | inr there ↦ others id there
      ] in
      rw (billed, took, gave) same

  refund_and_error-quota :
      (sent : List UpstreamRequest) (msg id : String)
      → quota_of (refund_and_error (paying sent) job msg now).relayer.db id ≡ quota_of r.db id
  unfolding refund_and_error
  refund_and_error-quota sent msg id = give_back-quota sent id

  refund_on_error-quota :
      (sent : List UpstreamRequest) (reply : Response) (a : Account) (id : String)
      → quota_of (refund_on_error (paying sent) job reply a now).relayer.db id ≡ quota_of r.db id
  unfolding refund_on_error
  refund_on_error-quota sent reply a id =
      write_log-quota
        (give_back (free_slot (paying sent) job.token.id) job.token.id job.est_tokens now) job a
        false (pos 0) (pos 0) reply.status now id
      ∙ give_back-quota sent id

  abbrev dispatched : Relayer
  dispatched = consumed services now r job.token job.est_tokens

  -- For a token whose newest plan row is the one that its query finds, whose plan counts tokens
  -- and is in force, and whose quota is not negative and fits 64 bits with the estimate: a request
  -- that is to be streamed, and whose answer is an error, leaves every quota as it was before the
  -- estimate was taken.
  pub handle_streaming-quota :
      leb 400 (handle_streaming services now dispatched job).response.status ≡ true
      → (id : String)
      → quota_of (handle_streaming services now dispatched job).relayer.db id ≡ quota_of r.db id
  unfolding handle_streaming
  handle_streaming-quota failed id =
      elim (Result-cases (job.adaptor.setup_request_header job.channel job.account job.creds)) [
        | inl (m, unset) ↦
            rw unset (refund_and_error-quota dispatched.sent "setup headers failed" id)
        | inr (headers, set_up) ↦
            let req = upstream_request job "POST" headers in
            let sent = req ∷ dispatched.sent in
            elim (Result-cases (services.send (length dispatched.sent) req)) [
              | inl (m, lost) ↦ rw (set_up, lost) (refund_and_error-quota sent "upstream error" id)
              | inr (reply, answered) ↦ elim (Bool-cases (leb 400 reply.status)) [
                | inl bad ↦
                    rw (set_up, answered, bad) (refund_on_error-quota sent reply job.account id)
                | inr good ↦
                    let fine : leb 400 reply.status ≡ true =
                      rw (set_up, answered, good) at failed in
                    absurd (ground arith)
              ]
            ]
      ]
