-- ===== src/Relay/State.antt =====
-- internal/relay/handler.go: the state of `Relayer`, and what it calls: the adaptors of the providers,
-- the conversion of formats, the sealed credentials and the network. The network answers the
-- process's n-th call; `now` is the clock, which a request reads once.
use cli_relay.Prelude.{ℕ, String, Bool, Option, List, ◌∷◌, length, if◌then◌else◌}
use cli_relay.Prelude.Int.{ℤ}
use cli_relay.Prelude.Results.{Result, ok, err}
use cli_relay.Db.{Database, Channel, Account}
use cli_relay.Pool.{PoolManager}
use cli_relay.Affinity.{AffinityCache}
use cli_relay.Limiter.{ConcurrencyLimiter, release}
use cli_relay.Relay.Http.{Body, Response, UpstreamRequest}
use cli_relay.Relay.Access.{Format, same_format}
use cli_relay.Billing.Counts.{TimeFormat}

-- `provider.Adaptor`, once `Init` and `SetRequestParams` have given it the channel, the account, the
-- model and the streaming flag.
pub record Adaptor : Type 0 where
  pub get_channel_type : String
  pub get_request_url : Channel → Account → String → Bool → String → Result String
  pub setup_request_header : Channel → Account → String → Result String
  pub parse_usage : Body → Result (ℤ × ℤ)
  pub convert_sse_buffer : Body → Body

-- What forwarding a stream came to: its error, and the usage that the tracker has seen.
pub record Forwarded : Type 0 where
  pub failed : Bool
  pub prompt_tokens : ℤ
  pub completion_tokens : ℤ

pub record Services : Type 0 where
  pub openai : Adaptor
  pub anthropic : Adaptor
  pub gemini : Adaptor
  pub convert_request : Format → Format → Body → Result Body
  pub convert_response : Format → Format → Body → Result Body
  pub stream_to_non_stream : Body → Body
  pub decrypt : String → Result String
  pub refresh_oauth_token : Account → Database → Database × Result String
  pub send : ℕ → UpstreamRequest → Result Response
  pub read_stream : Response → Result Body
  pub stream_and_forward : Adaptor → Format → Response → Forwarded
  pub times : TimeFormat

-- `channelCache`
pub record ChannelCache : Type 0 where
  pub channels : Option (List Channel)
  pub expiry : ℤ
  pub ttl : ℤ

-- `Relayer`, with the calls of the upstream services so far, the last one first. `has_billing` tells
-- whether the billing service is not nil.
pub record Relayer : Type 0 where
  pub db : Database
  pub pools : PoolManager
  pub has_billing : Bool
  pub affinity : AffinityCache
  pub limiter : ConcurrencyLimiter
  pub cache : ChannelCache
  pub sent : List UpstreamRequest

-- A call whose error is only logged.
abbrev pub best_effort : Database → Result Database → Database
best_effort db (ok db') = db'
best_effort db (err e) = db

abbrev pub free_slot : Relayer → String → Relayer
free_slot r token_id = record r { limiter = release r.limiter token_id }

-- `Client.Do`
abbrev pub exchange : Services → Relayer → UpstreamRequest → Relayer × Result Response
exchange services r req = (record r { sent = req ∷ r.sent }, services.send (length r.sent) req)

abbrev ok_or : Body → Result Body → Body
ok_or content (ok converted) = converted
ok_or content (err e) = content

-- `ConvertResponse` between two formats, whose error leaves the body as it is.
abbrev pub converted : Services → Format → Format → Body → Body
converted services from to content =
    if same_format from to
    then content
    else ok_or content (services.convert_response from to content)
