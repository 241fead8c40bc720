-- ===== src/Relay/Buffered.antt =====
-- internal/relay/handler.go: a request whose answer is not streamed. It is sent up to three times, and
-- an account that fails is cooled down before the next one is asked.
use cli_relay.Prelude.{ℕ, zero, suc, String, false, Option, none, some, if◌then◌else◌, leb}
use cli_relay.Prelude.Int.{ℤ}
use cli_relay.Prelude.Results.{Result, ok, err}
use cli_relay.Db.{Account}
use cli_relay.Relay.Http.{Response, UpstreamRequest, error_response}
use cli_relay.Relay.Channels.{cooldown_and_evict, pick_next, retry_next, ensure_valid_credentials}
use cli_relay.Relay.Settling.{
  Job, Outcome, done, give_back, write_log, refund_and_error, refund_on_error, settle_and_refund,
}
use cli_relay.Relay.State.{Services, Relayer, converted, exchange, free_slot}

-- `respBody` with its status, and `respAccount`; or a header that could not be set up.
pub data Attempted : Type 0 where
  aborted : Attempted
  ended : Option Response → Account → Attempted

-- What is sent to the account.
abbrev pub upstream_request : Job → String → String → UpstreamRequest
upstream_request job method headers = record {
  url = job.url;
  method = method;
  headers = headers;
  content = job.content;
}

module _ (services : Services) (now : ℤ) (job : Job) where
  -- How the loop goes on, with the account, its credentials and the answer so far.
  abbrev Again : Type 0
  Again = Relayer → Account → String → Option Response → Relayer × Attempted

  abbrev replacement_creds :
      Again → Account → Option Response → Relayer × Result String → Relayer × Attempted
  replacement_creds again account kept (r, ok creds) = again r account creds kept
  replacement_creds again account kept (r, err e) = (r, ended kept account)

  -- The account picked in place of one whose credentials do not open.
  abbrev replacement :
      Again → Account → Option Response → Relayer × Option Account → Relayer × Attempted
  replacement again last kept (r, none) = (r, ended kept last)
  replacement again last kept (r, some account) =
      replacement_creds again account kept (ensure_valid_credentials services now r account)

  abbrev next_creds :
      Again → Account → Option Response → Relayer × Result String → Relayer × Attempted
  next_creds again account kept (r, ok creds) = again r account creds kept
  next_creds again account kept (r, err e) =
      replacement again account kept (retry_next now r job.channel.id account.id)

  abbrev next_account :
      Again → Account → Option Response → Relayer × Option Account → Relayer × Attempted
  next_account again last kept (r, none) = (r, ended kept last)
  next_account again last kept (r, some account) =
      next_creds again account kept (ensure_valid_credentials services now r account)

  abbrev after_failure : Again → Relayer → Account → Account → Option Response → Relayer × Attempted
  after_failure again r failed last kept =
      next_account again last kept
        (pick_next (cooldown_and_evict now r job.channel.id failed.id) job.channel.id)

  -- `last` is `respAccount`, and `kept` the last answer that the loop has kept.
  abbrev answered :
      Again → Account → Account → Option Response → Relayer × Result Response → Relayer × Attempted
  answered again account last kept (r, err e) = after_failure again r account last kept
  answered again account last kept (r, ok reply) =
      if leb 500 reply.status
      then after_failure again r account last (some reply)
      else (r, ended (some reply) account)

  abbrev with_headers :
      Again
      → String
      → Relayer
      → Account
      → Account
      → Option Response
      → Result String
      → Relayer × Attempted
  with_headers again method r account last kept (err e) = (r, aborted)
  with_headers again method r account last kept (ok headers) =
      answered again account last kept (exchange services r (upstream_request job method headers))

  -- The loop of `handleBuffered`, with the rounds that are left. After its first round `respAccount` is
  -- the account that is asked.
  unfoldable pub attempt :
      ℕ → String → Relayer → Account → String → Option Response → Relayer × Attempted
  attempt zero method r account creds kept = (r, ended kept account)
  attempt (suc n) method r account creds kept =
      with_headers (attempt n method) method r account account kept
        (job.adaptor.setup_request_header job.channel account creds)

  abbrev reply_to : Relayer → Response → Account → Relayer × (ℤ × ℤ) → Outcome
  reply_to r reply account (settled, (pt, ct)) =
      done (write_log settled job account false pt ct reply.status now) (record {
        status = reply.status;
        content = converted services job.to job.from reply.content;
      })

  abbrev finish_buffered : Relayer × Attempted → Outcome
  finish_buffered (r, aborted) = refund_and_error r job "setup headers failed" now
  finish_buffered (r, ended none account) =
      done (give_back (free_slot r job.token.id) job.token.id job.est_tokens now)
        (error_response 503 "all retries exhausted")
  finish_buffered (r, ended (some reply) account) =
      if leb 400 reply.status
      then refund_on_error r job reply account now
      else reply_to r reply account (settle_and_refund r job reply.content now)

  unfoldable pub handle_buffered : Relayer → String → Outcome
  handle_buffered r method = finish_buffered (attempt 3 method r job.account job.creds none)
