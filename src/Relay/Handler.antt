-- ===== src/Relay/Handler.antt =====
-- internal/relay/handler.go: `HandleRelay`, and the handlers that stream from the upstream service. What
-- goes on in the producer's goroutine after a streamed answer has begun is `finish_stream`.
use cli_relay.Prelude.{
  ℕ, String, Bool, true, false, Option, none, some, if◌then◌else◌, ◌==◌, ◌&&◌, not, leb,
}
use cli_relay.Prelude.Int.{ℤ, pos, ltb_ℤ, eqb_ℤ}
use cli_relay.Prelude.Results.{Result, ok, err}
use cli_relay.Prelude.Text.{append}
use cli_relay.Db.{Token}
use cli_relay.Affinity.{set}
use cli_relay.Billing.Counts.{pre_consume}
use cli_relay.Limiter.{acquire}
use cli_relay.Relay.Access.{openai_chat, client_format, upstream_format}
use cli_relay.Relay.Http.{Body, Request, Response, Checked, pass, reject, error_response}
use cli_relay.Relay.Requests.{RelayRequest, inject_stream_true, parse_non_stream_usage}
use cli_relay.Relay.Channels.{Target, resolve_channel_and_account}
use cli_relay.Relay.Settling.{
  Job, Stream, Outcome, done, give_back, settle_up, write_log, refund_and_error, refund_on_error,
}
use cli_relay.Relay.Guards.{authorize, admit}
use cli_relay.Relay.Buffered.{upstream_request, handle_buffered}
use cli_relay.Relay.State.{Services, Relayer, best_effort, free_slot, exchange, converted}

module _ (services : Services) (now : ℤ) where
  abbrev streamed : Job → Relayer × Result Response → Outcome
  streamed job (r, err e) = refund_and_error r job "upstream error" now
  streamed job (r, ok reply) =
      if leb 400 reply.status then refund_on_error r job reply job.account now else record {
        relayer = r;
        response = reply;
        stream = some (record { job = job; reply = reply });
      }

  abbrev stream_with : Job → Relayer → Result String → Outcome
  stream_with job r (err e) = refund_and_error r job "setup headers failed" now
  stream_with job r (ok headers) =
      streamed job (exchange services r (upstream_request job "POST" headers))

  unfoldable pub handle_streaming : Relayer → Job → Outcome
  handle_streaming r job =
      stream_with job r (job.adaptor.setup_request_header job.channel job.account job.creds)

  abbrev remember : Relayer → Job → Relayer
  remember r job = record r {
    affinity = set r.affinity job.token.id job.model job.channel.id job.channel.affinity_ttl now;
  }

  -- The producer's goroutine of `handleStreaming`.
  unfoldable pub finish_stream : Relayer → Stream → Relayer
  finish_stream r s =
      let f = services.stream_and_forward s.job.adaptor s.job.from s.reply in
      let job = s.job in
      let kept =
        if not f.failed && ltb_ℤ (pos 0) job.channel.affinity_ttl then remember r job else r in
      let logged =
        write_log kept job job.account true f.prompt_tokens f.completion_tokens s.reply.status
          now in
      free_slot
        (settle_up logged job.token.id job.est_tokens f.prompt_tokens f.completion_tokens job.model
          now)
        job.token.id

  abbrev buffered_reply : Relayer → Job → Response → Body → Outcome
  buffered_reply r job reply content =
      let (pt, ct) = parse_non_stream_usage content in
      let logged = write_log r job job.account false pt ct reply.status now in
      done
        (settle_up (free_slot logged job.token.id) job.token.id job.est_tokens pt ct job.model now)
        (record {
          status = reply.status;
          content = converted services openai_chat job.from content;
        })

  abbrev force_read : Relayer → Job → Response → Result Body → Outcome
  force_read r job reply (err e) = refund_and_error r job "read upstream error" now
  force_read r job reply (ok content) =
      let sse =
        if job.adaptor.get_channel_type == "openai"
        then content
        else job.adaptor.convert_sse_buffer content in
      buffered_reply r job reply (services.stream_to_non_stream sse)

  abbrev forced : Job → Relayer × Result Response → Outcome
  forced job (r, err e) = refund_and_error r job "upstream error" now
  forced job (r, ok reply) =
      if leb 400 reply.status
      then refund_on_error r job reply job.account now
      else force_read r job reply (services.read_stream reply)

  abbrev force_with : Job → Relayer → Result String → Outcome
  force_with job r (err e) = refund_and_error r job "setup headers failed" now
  force_with job r (ok headers) =
      forced job (exchange services r (upstream_request job "POST" headers))

  unfoldable pub handle_force_stream : Relayer → Job → Outcome
  handle_force_stream r job =
      force_with job r (job.adaptor.setup_request_header job.channel job.account job.creds)

  -- The last step of `HandleRelay`, which remembers the channel of a request that is not streamed.
  abbrev remembered : Job → Bool → Outcome → Outcome
  remembered job stream o =
      if not stream && (ltb_ℤ (pos 0) job.channel.affinity_ttl && not (leb 400 o.response.status))
      then record o { relayer = remember o.relayer job }
      else o

  unfoldable pub dispatch : Relayer → Job → Bool → String → Outcome
  dispatch r job stream method = remembered job stream (
      if stream
      then handle_streaming r job
      else if job.channel.force_stream
      then handle_force_stream r job
      else handle_buffered services now job r method)

  abbrev pub consumed : Relayer → Token → ℤ → Relayer
  consumed r token est =
      if r.has_billing
      then record r { db = best_effort r.db (pre_consume services.times r.db token.id est now) }
      else r

  abbrev estimate : RelayRequest → ℤ
  estimate rr = if eqb_ℤ rr.max_tokens (pos 0) then pos 1000 else rr.max_tokens

  -- An error before the dispatch: the estimate is refunded, the deferred call frees the slot.
  abbrev give_up : Relayer → Token → ℤ → ℕ → String → Outcome
  give_up r token est status message =
      done (free_slot (give_back r token.id est now) token.id) (error_response status message)

  abbrev convert_and_dispatch :
      Relayer → Token → Target → RelayRequest → Request → String → Result Body → Outcome
  convert_and_dispatch r token target rr req url (err e) =
      give_up r token (estimate rr) 400 (append "convert request failed: " e)
  convert_and_dispatch r token target rr req url (ok content) =
      dispatch r
        (record {
          token = token;
          channel = target.channel;
          account = target.account;
          adaptor = target.adaptor;
          url = url;
          content = content;
          creds = target.creds;
          model = rr.model;
          from = client_format req.path;
          to = upstream_format target.channel.type target.channel.api_format;
          started = now;
          est_tokens = estimate rr;
        })
        rr.stream req.method

  abbrev body_for : Target → RelayRequest → Request → Body
  body_for target rr req =
      if target.channel.force_stream && not rr.stream
      then inject_stream_true req.content
      else req.content

  abbrev build : Relayer → Token → Target → RelayRequest → Request → Result String → Outcome
  build r token target rr req (err e) = give_up r token (estimate rr) 500 "build url failed"
  build r token target rr req (ok url) = convert_and_dispatch r token target rr req url (
      services.convert_request (client_format req.path)
        (upstream_format target.channel.type target.channel.api_format) (body_for target rr req))

  abbrev relay_to : Token → RelayRequest → Request → Relayer × Option Target → Outcome
  relay_to token rr req (r, none) =
      done (free_slot r token.id) (error_response 404 "no available channel for model")
  relay_to token rr req (r, some target) =
      build (consumed r token (estimate rr)) token target rr req
        (target.adaptor.get_request_url target.channel target.account rr.model rr.stream req.path)

  abbrev with_request : Relayer → Token → Request → Checked RelayRequest → Outcome
  with_request r token req (reject response) = done (free_slot r token.id) response
  with_request r token req (pass rr) =
      relay_to token rr req (resolve_channel_and_account services now r token.id rr.model)

  unfoldable pub with_slot : Relayer → Token → Request → Outcome
  with_slot r token req = with_request r token req (admit services r token req now)

  abbrev with_token : Relayer → Request → Checked Token → Outcome
  with_token r req (reject response) = done r response
  with_token r req (pass token) =
      let (limiter, granted) = acquire r.limiter token.id in
      if granted
      then with_slot (record r { limiter = limiter }) token req
      else done (record r { limiter = limiter })
          (error_response 429 "concurrent request limit exceeded")

  -- `HandleRelay`
  unfoldable pub handle_relay : Relayer → Request → Outcome
  handle_relay r req = with_token r req (authorize r.db req now)

  abbrev pub finished : Relayer → Option Stream → Relayer
  finished r none = r
  finished r (some s) = finish_stream r s

  -- A request with the stream that it starts, if any, brought to its end.
  unfoldable pub serve : Relayer → Request → Relayer
  serve r req = let o = handle_relay r req in finished o.relayer o.stream
