-- ===== src/Relay/Calls.antt =====
-- The number of calls of upstream services in internal/relay/handler.go.
use cli_relay.Prelude.{
  ℕ, zero, suc, String, Bool, Option, none, List, ◌≡◌, refl, arith, length, ◌≤◌, ◌+◌,
}
use cli_relay.Prelude.Int.{ℤ}
use cli_relay.Db.{Account, Token}
use cli_relay.Relay.Buffered.{attempt, handle_buffered}
use cli_relay.Relay.Choosing.{
  IsApart, view-ensure, view-pick_next, view-cooldown_and_evict, view-retry_next, view-resolve,
}
use cli_relay.Relay.Handler.{
  handle_streaming, handle_force_stream, dispatch, with_slot, handle_relay,
}
use cli_relay.Relay.Http.{Request, Response, UpstreamRequest}
use cli_relay.Relay.Settling.{Job, write_log, refund_and_error, refund_on_error, settle_and_refund}
use cli_relay.Relay.State.{Services, Relayer}

abbrev sent_of : Relayer → List UpstreamRequest
sent_of r = r.sent

abbrev calls_of : Relayer → ℕ
calls_of r = length r.sent

sent_of-IsApart : IsApart sent_of
sent_of-IsApart = record {
  of_db = λ r db. refl;
  of_pools = λ r pools. refl;
  of_affinity = λ r cache. refl;
  of_cache = λ r cache. refl;
}

calls_of-IsApart : IsApart calls_of
calls_of-IsApart = record {
  of_db = λ r db. refl;
  of_pools = λ r pools. refl;
  of_affinity = λ r cache. refl;
  of_cache = λ r cache. refl;
}

module _ (services : Services) (now : ℤ) where
  abbrev apart : IsApart calls_of
  apart = calls_of-IsApart

  attempt-calls :
      (job : Job) (n : ℕ) (method : String) (r : Relayer) (a : Account) (creds : String)
      (kept : Option Response)
      → calls_of (attempt services now job n method r a creds kept).0 ≤ calls_of r + n
  unfolding attempt
  attempt-calls job zero method r a creds kept = omega arith
  attempt-calls job (suc n) method r a creds kept = grind (
    arith,
    attempt-calls job n method,
    view-ensure calls_of apart services now,
    view-pick_next calls_of apart services now,
    view-cooldown_and_evict calls_of apart services now,
    view-retry_next calls_of apart services now,
  )

  refund_and_error-sent :
      (r : Relayer) (job : Job) (msg : String)
      → (refund_and_error r job msg now).relayer.sent ≡ r.sent
  unfolding refund_and_error
  refund_and_error-sent r job msg = ground arith

  refund_on_error-sent :
      (r : Relayer) (job : Job) (reply : Response) (a : Account)
      → (refund_on_error r job reply a now).relayer.sent ≡ r.sent
  unfolding refund_on_error write_log
  refund_on_error-sent r job reply a = ground arith

  handle_streaming-calls :
      (r : Relayer) (job : Job)
      → calls_of (handle_streaming services now r job).relayer ≤ calls_of r + 1
  unfolding handle_streaming
  handle_streaming-calls r job = grind (arith, refund_and_error-sent, refund_on_error-sent)

  handle_force_stream-calls :
      (r : Relayer) (job : Job)
      → calls_of (handle_force_stream services now r job).relayer ≤ calls_of r + 1
  unfolding handle_force_stream write_log
  handle_force_stream-calls r job = grind (arith, refund_and_error-sent, refund_on_error-sent)

  handle_buffered-calls :
      (r : Relayer) (job : Job) (method : String)
      → calls_of (handle_buffered services now job r method).relayer ≤ calls_of r + 3
  unfolding handle_buffered settle_and_refund write_log
  handle_buffered-calls r job method = grind (
    arith,
    refund_and_error-sent,
    refund_on_error-sent,
    attempt-calls job 3 method r job.account job.creds none,
  )

  dispatch-calls :
      (r : Relayer) (job : Job) (stream : Bool) (method : String)
      → calls_of (dispatch services now r job stream method).relayer ≤ calls_of r + 3
  unfolding dispatch
  dispatch-calls r job stream method = ground (
    arith,
    handle_streaming-calls r job,
    handle_force_stream-calls r job,
    handle_buffered-calls r job method,
  )

  with_slot-calls :
      (r : Relayer) (token : Token) (req : Request)
      → calls_of (with_slot services now r token req).relayer ≤ calls_of r + 3
  unfolding with_slot
  with_slot-calls r token req =
      grind (arith, dispatch-calls, view-resolve calls_of apart services now r token.id)

  -- A request makes at most three calls of upstream services, whatever they answer.
  pub handle_relay-calls :
      (r : Relayer) (req : Request)
      → length (handle_relay services now r req).relayer.sent ≤ length r.sent + 3
  unfolding handle_relay
  handle_relay-calls r req = grind (arith, with_slot-calls)
