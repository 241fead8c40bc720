-- ===== src/Relay/Slots.antt =====
-- The slot of a request in internal/relay/handler.go, from `HandleRelay` through its handlers to
-- the end of the stream.
use cli_relay.Prelude.{ℕ, zero, suc, if◌then◌else◌, String, Bool, Option, none, ◌≡◌, refl, arith}
use cli_relay.Prelude.Int.{ℤ}
use cli_relay.Db.{Account, Token}
use cli_relay.Limiter.{ConcurrencyLimiter, acquire, release}
use cli_relay.Relay.Buffered.{attempt, handle_buffered}
use cli_relay.Relay.Choosing.{
  IsApart, view-ensure, view-pick_next, view-cooldown_and_evict, view-retry_next, view-resolve,
}
use cli_relay.Relay.Guards.{authorize}
use cli_relay.Relay.Handler.{
  handle_streaming, handle_force_stream, dispatch, with_slot, handle_relay, finish_stream, finished,
  serve,
}
use cli_relay.Relay.Http.{Request, Response, Checked, pass, reject}
use cli_relay.Relay.Settling.{
  Job, Stream, Outcome, write_log, refund_and_error, refund_on_error, settle_and_refund,
}
use cli_relay.Relay.State.{Services, Relayer}

abbrev limiter_of : Relayer → ConcurrencyLimiter
limiter_of r = r.limiter

limiter_of-IsApart : IsApart limiter_of
limiter_of-IsApart = record {
  of_db = λ r db. refl;
  of_pools = λ r pools. refl;
  of_affinity = λ r cache. refl;
  of_cache = λ r cache. refl;
}

-- What a request does to the slots: nothing if it is turned away before it reserves one or finds
-- none, and otherwise it reserves one and frees it.
abbrev pub SlotsBalanced : Relayer → Checked Token → ConcurrencyLimiter → Type 0
SlotsBalanced r (reject response) after = after ≡ r.limiter
SlotsBalanced r (pass token) after =
    let (taken, granted) = acquire r.limiter token.id in
    after ≡ (if granted then release taken token.id else taken)

module _ (services : Services) (now : ℤ) where
  abbrev apart : IsApart limiter_of
  apart = limiter_of-IsApart

  attempt-limiter :
      (job : Job) (n : ℕ) (method : String) (r : Relayer) (a : Account) (creds : String)
      (kept : Option Response)
      → (attempt services now job n method r a creds kept).0.limiter ≡ r.limiter
  unfolding attempt
  attempt-limiter job zero method r a creds kept = refl
  attempt-limiter job (suc n) method r a creds kept = grind (
    arith,
    attempt-limiter job n method,
    view-ensure limiter_of apart services now,
    view-pick_next limiter_of apart services now,
    view-cooldown_and_evict limiter_of apart services now,
    view-retry_next limiter_of apart services now,
  )

  -- The slots once the request and its stream, if it has one, are over.
  abbrev slots_after : Outcome → ConcurrencyLimiter
  slots_after o = (finished services now o.relayer o.stream).limiter

  finish_stream-limiter :
      (r : Relayer) (s : Stream)
      → (finish_stream services now r s).limiter ≡ release r.limiter s.job.token.id
  unfolding finish_stream write_log
  finish_stream-limiter r s = ground arith

  refund_and_error-limiter :
      (r : Relayer) (job : Job) (msg : String)
      → slots_after (refund_and_error r job msg now) ≡ release r.limiter job.token.id
  unfolding refund_and_error
  refund_and_error-limiter r job msg = ground arith

  refund_on_error-limiter :
      (r : Relayer) (job : Job) (reply : Response) (a : Account)
      → slots_after (refund_on_error r job reply a now) ≡ release r.limiter job.token.id
  unfolding refund_on_error write_log
  refund_on_error-limiter r job reply a = ground arith

  handle_streaming-limiter :
      (r : Relayer) (job : Job)
      → slots_after (handle_streaming services now r job) ≡ release r.limiter job.token.id
  unfolding handle_streaming
  handle_streaming-limiter r job =
      grind (arith, finish_stream-limiter, refund_and_error-limiter, refund_on_error-limiter)

  handle_force_stream-limiter :
      (r : Relayer) (job : Job)
      → slots_after (handle_force_stream services now r job) ≡ release r.limiter job.token.id
  unfolding handle_force_stream write_log
  handle_force_stream-limiter r job =
      grind (arith, refund_and_error-limiter, refund_on_error-limiter)

  handle_buffered-limiter :
      (r : Relayer) (job : Job) (method : String)
      → slots_after (handle_buffered services now job r method) ≡ release r.limiter job.token.id
  unfolding handle_buffered settle_and_refund write_log
  handle_buffered-limiter r job method = grind (
    arith,
    refund_and_error-limiter,
    refund_on_error-limiter,
    attempt-limiter job 3 method r job.account job.creds none,
  )

  -- Remembering the channel of a request leaves the slots alone.
  finished-limiter :
      (r r' : Relayer) (s : Option Stream)
      → r.limiter ≡ r'.limiter
      → (finished services now r s).limiter ≡ (finished services now r' s).limiter
  finished-limiter r r' s e = grind (arith, finish_stream-limiter)

  dispatch-limiter :
      (r : Relayer) (job : Job) (stream : Bool) (method : String)
      → slots_after (dispatch services now r job stream method) ≡ release r.limiter job.token.id
  unfolding dispatch
  dispatch-limiter r job stream method = grind (
    arith,
    finished-limiter,
    handle_streaming-limiter r job,
    handle_force_stream-limiter r job,
    handle_buffered-limiter r job method,
  )

  with_slot-limiter :
      (r : Relayer) (token : Token) (req : Request)
      → slots_after (with_slot services now r token req) ≡ release r.limiter token.id
  unfolding with_slot
  with_slot-limiter r token req =
      grind (arith, dispatch-limiter, view-resolve limiter_of apart services now r token.id)

  pub serve-SlotsBalanced :
      (r : Relayer) (req : Request)
      → SlotsBalanced r (authorize r.db req now) (serve services now r req).limiter
  unfolding serve handle_relay
  serve-SlotsBalanced r req = grind (arith, with_slot-limiter)
