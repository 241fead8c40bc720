-- ===== src/Relay/Channels.antt =====
-- internal/relay/handler.go: the cache of channels, and how a channel and one of its accounts are
-- chosen for a request. `EnsureValidCredentials` is in internal/relay/account_refresh.go.
use cli_relay.Prelude.{
  String, Bool, false, Option, none, some, List, [], ◌∷◌, if◌then◌else◌, ◌==◌, ◌&&◌, ◌||◌, ◌*◌, ◌^◌,
  filter,
}
use cli_relay.Prelude.Int.{ℤ, pos, ◌+ℤ◌, ltb_ℤ}
use cli_relay.Prelude.Results.{Result, ok, err}
use cli_relay.Db.{Database, Channel, Account}
use cli_relay.Db.Queries.{first, is_live}
use cli_relay.Pool.{AccountPool, get_pool, set_pool, pick, cooldown}
use cli_relay.Affinity.{get, evict_channel}
use cli_relay.Relay.Access.{model_in_list}
use cli_relay.Relay.State.{Services, Adaptor, ChannelCache, Relayer}

unfoldable pub new_channel_cache : ℤ → ChannelCache
new_channel_cache ttl = record { channels = none; expiry = pos 0; ttl = ttl }

-- `Order("priority DESC")`, where equal priorities keep the order of the table.
unfoldable pub insert_by_priority : Channel → List Channel → List Channel
insert_by_priority ch [] = ch ∷ []
insert_by_priority ch (other ∷ others) =
    if ltb_ℤ ch.priority other.priority
    then other ∷ insert_by_priority ch others
    else ch ∷ other ∷ others

unfoldable pub by_priority : List Channel → List Channel
by_priority [] = []
by_priority (ch ∷ chs) = insert_by_priority ch (by_priority chs)

abbrev pub is_usable : Channel → Bool
is_usable ch = ch.enabled && is_live ch.deleted_at

abbrev fetch : Relayer → ℤ → Relayer × List Channel
fetch r now =
    if r.db.failing
    then (r, [])
    else let channels = by_priority (filter is_usable r.db.channels) in
      (
        record r {
          cache = record r.cache { channels = some channels; expiry = now +ℤ r.cache.ttl };
        },
        channels,
      )

abbrev cached_or_fetched : Relayer → ℤ → Option (List Channel) → Relayer × List Channel
cached_or_fetched r now none = fetch r now
cached_or_fetched r now (some channels) =
    if ltb_ℤ now r.cache.expiry then (r, channels) else fetch r now

-- `channelCache.get`
unfoldable pub get_channels : Relayer → ℤ → Relayer × List Channel
get_channels r now = cached_or_fetched r now r.cache.channels

unfoldable pub get_adaptor : Services → String → Option Adaptor
get_adaptor services type =
    if type == "openai"
    then some services.openai
    else if type == "anthropic"
    then some services.anthropic
    else if type == "gemini"
    then some services.gemini
    else none

abbrev is_past : Option ℤ → ℤ → Bool
is_past none now = false
is_past (some t) now = ltb_ℤ t now

abbrev refreshed : Relayer → Database × Result String → Relayer × Result String
refreshed r (db, result) = (record r { db = db }, result)

-- `EnsureValidCredentials`
unfoldable pub ensure_valid_credentials : Services → ℤ → Relayer → Account → Relayer × Result String
ensure_valid_credentials services now r account =
    if account.cred_type == "api_key" || account.cred_type == ""
    then (r, services.decrypt account.credentials)
    else if is_past account.token_expiry now
    then refreshed r (services.refresh_oauth_token account r.db)
    else (r, services.decrypt account.credentials)

abbrev picked : Relayer → String → AccountPool × Option Account → Relayer × Option Account
picked r channel_id (pool, account) =
    (record r { pools = set_pool r.pools channel_id pool }, account)

abbrev pick_from : Relayer → String → Option AccountPool → Relayer × Option Account
pick_from r channel_id none = (r, none)
pick_from r channel_id (some pool) = picked r channel_id (pick pool)

-- `pickNext` from the channel's pool.
unfoldable pub pick_next : Relayer → String → Relayer × Option Account
pick_next r channel_id = pick_from r channel_id (get_pool r.pools channel_id)

pub record Target : Type 0 where
  pub channel : Channel
  pub account : Account
  pub adaptor : Adaptor
  pub creds : String

abbrev with_creds : Channel → Adaptor → Account → Relayer × Result String → Relayer × Result Target
with_creds ch adaptor account (r, err e) = (r, err "decrypt error")
with_creds ch adaptor account (r, ok creds) =
    (r, ok (record { channel = ch; account = account; adaptor = adaptor; creds = creds }))

abbrev with_account :
    Services → ℤ → Channel → Adaptor → Relayer × Option Account → Relayer × Result Target
with_account services now ch adaptor (r, none) = (r, err "no available account")
with_account services now ch adaptor (r, some account) =
    with_creds ch adaptor account (ensure_valid_credentials services now r account)

abbrev with_adaptor : Services → ℤ → Relayer → Channel → Option Adaptor → Relayer × Result Target
with_adaptor services now r ch none = (r, err "unsupported channel type")
with_adaptor services now r ch (some adaptor) = elim (get_pool r.pools ch.id) [
  | none ↦ (r, err "channel pool not initialized")
  | some pool ↦ with_account services now ch adaptor (picked r ch.id (pick pool))
]

unfoldable pub pick_account : Services → ℤ → Relayer → Channel → Relayer × Result Target
pick_account services now r ch = with_adaptor services now r ch (get_adaptor services ch.type)

-- What comes after a channel that may have given a target.
abbrev or_next :
    (Relayer → Relayer × Option Target) → Relayer × Result Target → Relayer × Option Target
or_next next (r, ok target) = (r, some target)
or_next next (r, err e) = next r

-- The loop over the channels by priority.
unfoldable pub first_target :
    Services → ℤ → String → List Channel → Relayer → Relayer × Option Target
first_target services now model [] r = (r, none)
first_target services now model (ch ∷ chs) r =
    if model_in_list model ch.models
    then or_next (first_target services now model chs) (pick_account services now r ch)
    else first_target services now model chs r

unfoldable pub by_priority_target : Services → ℤ → String → Relayer → Relayer × Option Target
by_priority_target services now model r =
    let (r', channels) = get_channels r now in first_target services now model channels r'

abbrev affine : Services → ℤ → String → Relayer → Result Channel → Relayer × Option Target
affine services now model r (err e) = by_priority_target services now model r
affine services now model r (ok ch) =
    if model_in_list model ch.models
    then or_next (by_priority_target services now model) (pick_account services now r ch)
    else by_priority_target services now model r

-- `resolveChannelAndAccount`: `none` is `errNoChannel`.
unfoldable pub resolve_channel_and_account :
    Services → ℤ → Relayer → String → String → Relayer × Option Target
resolve_channel_and_account services now r token_id model =
    let (cache, ch_id) = get r.affinity token_id model now in
    let r' = record r { affinity = cache } in
    if ch_id == ""
    then by_priority_target services now model r'
    else affine services now model r'
        (first r'.db.failing (λ ch. ch.id == ch_id && is_usable ch) r'.db.channels)

abbrev five_minutes : ℤ
five_minutes = pos (300 * 10 ^ 9)

abbrev cool_in : Relayer → String → String → ℤ → Option AccountPool → Relayer
cool_in r channel_id account_id now none = r
cool_in r channel_id account_id now (some pool) = record r {
  pools = set_pool r.pools channel_id (cooldown pool account_id five_minutes now);
}

unfoldable pub cooldown_and_evict : ℤ → Relayer → String → String → Relayer
cooldown_and_evict now r channel_id account_id =
    let cooled = cool_in r channel_id account_id now (get_pool r.pools channel_id) in
    record cooled { affinity = evict_channel cooled.affinity channel_id }

unfoldable pub retry_next : ℤ → Relayer → String → String → Relayer × Option Account
retry_next now r channel_id failed_id =
    pick_next (cooldown_and_evict now r channel_id failed_id) channel_id
