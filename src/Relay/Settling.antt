-- ===== src/Relay/Settling.antt =====
-- internal/relay/handler.go: how a request ends: its slot, its estimate, its answer and its log.
-- A goroutine that only refunds, settles or logs has run when the step that starts it is over.
use cli_relay.Prelude.{ℕ, String, Bool, false, Option, none, [], ◌∷◌, ◌++◌, if◌then◌else◌, ◌==◌}
use cli_relay.Prelude.Int.{ℤ, pos, ◌+ℤ◌, ◌-ℤ◌, int64, quot_ℕ}
use cli_relay.Prelude.Results.{Result, ok, err}
use cli_relay.Db.{Account, Channel, Log, Token}
use cli_relay.Billing.{refund_and_settle}
use cli_relay.Billing.Counts.{refund}
use cli_relay.Relay.Access.{Format}
use cli_relay.Relay.Errors.{normalize_error_response}
use cli_relay.Relay.Http.{Body, Response, json, raw, error_response}
use cli_relay.Relay.State.{Adaptor, Relayer, best_effort, free_slot}

-- What is known of a request once a channel has been chosen for it.
pub record Job : Type 0 where
  pub token : Token
  pub channel : Channel
  pub account : Account
  pub adaptor : Adaptor
  pub url : String
  pub content : Body
  pub creds : String
  pub model : String
  pub from : Format
  pub to : Format
  pub started : ℤ
  pub est_tokens : ℤ

-- A stream that goes on after the handler has returned.
pub record Stream : Type 0 where
  pub job : Job
  pub reply : Response

pub record Outcome : Type 0 where
  pub relayer : Relayer
  pub response : Response
  pub stream : Option Stream

abbrev pub done : Relayer → Response → Outcome
done r response = record { relayer = r; response = response; stream = none }

-- `billing.Refund` and `billing.RefundAndSettle`, where there is a billing service.
abbrev pub give_back : Relayer → String → ℤ → ℤ → Relayer
give_back r token_id est now =
    if r.has_billing then record r { db = best_effort r.db (refund r.db token_id est now) } else r

abbrev pub settle_up : Relayer → String → ℤ → ℤ → ℤ → String → ℤ → Relayer
settle_up r token_id est prompt completion model now =
    if r.has_billing
    then record r {
      db = best_effort r.db (refund_and_settle r.db token_id est prompt completion model now);
    }
    else r

abbrev milliseconds : ℤ → ℤ
milliseconds d = quot_ℕ d 1000000

abbrev log_entry : String → String → String → String → Bool → ℤ → ℤ → ℤ → ℤ → ℕ → Log
log_entry token_id channel_id account_id model is_stream pt ct start now status = record {
  token_id = token_id;
  channel_id = channel_id;
  account_id = account_id;
  model = model;
  is_stream = is_stream;
  prompt_tokens = pt;
  completion_tokens = ct;
  total_tokens = int64 (pt +ℤ ct);
  latency_ms = milliseconds (now -ℤ start);
  status_code = pos status;
}

-- `writeLog`: an error of the database is only printed.
unfoldable pub write_log : Relayer → Job → Account → Bool → ℤ → ℤ → ℕ → ℤ → Relayer
write_log r job account is_stream pt ct status now = if r.db.failing then r else record r {
  db = record r.db {
    logs =
        r.db.logs
        ++ log_entry job.token.id job.channel.id account.id job.model is_stream pt ct job.started
            now status
          ∷ [];
  };
}

unfoldable pub refund_and_error : Relayer → Job → String → ℤ → Outcome
refund_and_error r job msg now =
    done (give_back (free_slot r job.token.id) job.token.id job.est_tokens now)
      (error_response 500 msg)

unfoldable pub refund_on_error : Relayer → Job → Response → Account → ℤ → Outcome
refund_on_error r job reply account now =
    let refunded = give_back (free_slot r job.token.id) job.token.id job.est_tokens now in
    done (write_log refunded job account false (pos 0) (pos 0) reply.status now)
      (record { status = reply.status; content = normalize_error_response reply.content job.from })

abbrev is_empty : Body → Bool
is_empty (raw s) = s == ""
is_empty (json v) = false

abbrev usage_or_zero : Result (ℤ × ℤ) → ℤ × ℤ
usage_or_zero (ok usage) = usage
usage_or_zero (err e) = (pos 0, pos 0)

abbrev usage_of : Job → Body → ℤ × ℤ
usage_of job content =
    if is_empty content then (pos 0, pos 0) else usage_or_zero (job.adaptor.parse_usage content)

-- `settleAndRefund`, with the usage that it returns.
unfoldable pub settle_and_refund : Relayer → Job → Body → ℤ → Relayer × (ℤ × ℤ)
settle_and_refund r job content now =
    let freed = free_slot r job.token.id in
    let (pt, ct) = usage_of job content in
    if r.has_billing
    then (settle_up freed job.token.id job.est_tokens pt ct job.model now, (pt, ct))
    else (freed, (pos 0, pos 0))
