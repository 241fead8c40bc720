-- ===== src/Relay/Tests.antt =====
-- A relayer with one channel and two accounts, whose upstream service fails once: tests of the
-- handler, and its theorems at concrete inputs.
use cli_relay.Prelude.{
  zero, suc, String, true, false, none, [], ◌∷◌, ◌≡◌, ◌⊎◌, refl, arith, length, ◌≤◌, ◌+◌,
}
use cli_relay.Prelude.Int.{pos, ◌+ℤ◌, ◌-ℤ◌, ◌*ℤ◌, int64}
use cli_relay.Prelude.Maps.{lookup, insert, delete, delete_where}
use cli_relay.Prelude.Results.{ok, err}
use cli_relay.Prelude.Text.{
  append, has_prefix, strip_prefix?, trim_space, trim_left, trim_right, split_comma,
}
use cli_relay.Affinity
use cli_relay.Affinity.{new_affinity_cache}
use cli_relay.Db.{Account, Base, Channel, Database, Token}
use cli_relay.Json.{text, object, end, field}
use cli_relay.Limiter.{active, acquire, release, decrement, drop_idle}
use cli_relay.Limiter.Refinement.{InRange}
use cli_relay.Pool.{
  new_account_pool, weigh_all, initial_weight, set_pool, get_pool, new_pool_manager, pick, scan,
  charge, cooldown, cool_first,
}
use cli_relay.Relay.Access.{
  client_format, upstream_format, permission_for_format, extract_bearer_token, client_ip_candidates,
  ip_allowed, model_in_list, permission_in_list,
}
use cli_relay.Relay.Admission.{IsAuthorized, IsPermitted, handle_relay-admits}
use cli_relay.Relay.Buffered.{attempt, handle_buffered}
use cli_relay.Relay.Calls.{handle_relay-calls}
use cli_relay.Relay.Channels.{
  insert_by_priority, by_priority, get_channels, get_adaptor, ensure_valid_credentials,
  pick_account, first_target, by_priority_target, resolve_channel_and_account, cooldown_and_evict,
  pick_next, retry_next,
}
use cli_relay.Relay.Freed.{serve-active}
use cli_relay.Relay.Guards.{authorize, check_billing, admit}
use cli_relay.Relay.Handler.{
  handle_streaming, handle_force_stream, dispatch, with_slot, handle_relay, finish_stream, serve,
}
use cli_relay.Relay.Http.{json, raw, Request}
use cli_relay.Relay.Requests.{
  RelayRequest, parse_request, inject_stream_true, parse_non_stream_usage,
}
use cli_relay.Relay.Settling.{write_log, refund_and_error, refund_on_error, settle_and_refund}
use cli_relay.Relay.State.{Adaptor, Services, Relayer}

abbrev pub adaptor : Adaptor
adaptor = record {
  get_channel_type = "openai";
  get_request_url = λ ch a model stream path. ok (append ch.endpoint path);
  setup_request_header = λ ch a creds. ok creds;
  parse_usage = λ content. ok (pos 3, pos 4);
  convert_sse_buffer = λ content. content;
}

-- The first call of the process fails.
abbrev pub services : Services
services = record {
  openai = adaptor;
  anthropic = adaptor;
  gemini = adaptor;
  convert_request = λ from to content. ok content;
  convert_response = λ from to content. ok content;
  stream_to_non_stream = λ content. content;
  decrypt = λ sealed. ok sealed;
  refresh_oauth_token = λ a db. (db, err "no network");
  send = λ n req. elim n [
    | zero ↦ ok (record { status = 502; content = raw "" })
    | suc k ↦ ok (record { status = 200; content = json (object (field "answer" (text "hi") end)) })
  ];
  read_stream = λ reply. ok reply.content;
  stream_and_forward =
      λ a from reply. record { failed = false; prompt_tokens = pos 1; completion_tokens = pos 2 };
  times = record { parse = λ s. none; format = λ t. "" };
}

abbrev base_of : String → Base
base_of id = record { id = id; created_at = pos 0; updated_at = pos 0; deleted_at = none }

abbrev pub account : String → Account
account id = record {
  base = base_of id;
  channel_id = "ch1";
  name = id;
  credentials = id;
  cred_type = "api_key";
  weight = pos 1;
  enabled = true;
  cooldown_until = none;
  refresh_token = "";
  token_expiry = none;
  client_id = "";
  client_secret = "";
  token_url = "";
}

abbrev pub channel : Channel
channel = record {
  base = base_of "ch1";
  name = "one";
  type = "openai";
  endpoint = "http://up";
  enabled = true;
  models = "gpt, o1";
  priority = pos 0;
  api_format = "";
  force_stream = false;
  affinity_ttl = pos 60;
}

abbrev pub token : Token
token = record {
  base = base_of "t1";
  user_id = "";
  name = "key";
  key = "sk";
  enabled = true;
  ip_whitelist = "10.0.0.1, 10.0.0.2";
  expires_at = none;
  models = "gpt";
  permissions = "chat";
  unlimited = false;
}

abbrev database : Database
database = record {
  failing = false;
  channels = channel ∷ [];
  accounts = account "a1" ∷ account "a2" ∷ [];
  tokens = token ∷ [];
  plans = [];
  token_plans = [];
  users = [];
  redeem_codes = [];
  logs = [];
}

abbrev pub relayer : Relayer
relayer = record {
  db = database;
  pools =
      set_pool new_pool_manager "ch1" (new_account_pool (account "a1" ∷ account "a2" ∷ []) (pos 0));
  has_billing = false;
  affinity = new_affinity_cache;
  limiter = record { counts = []; limit = pos 2 };
  cache = record { channels = none; expiry = pos 0; ttl = pos 30 };
  sent = [];
}

abbrev request : String → Request
request model = record {
  path = "/v1/chat/completions";
  method = "POST";
  authorization = "Bearer sk";
  remote_ip = "10.0.0.2";
  x_real_ip = "";
  x_forwarded_for = "";
  content = json (object (field "model" (text model) end));
}

handler : Unit {0}
unfolding append has_prefix strip_prefix? trim_space trim_left trim_right split_comma lookup insert
    delete delete_where int64 ◌+ℤ◌ ◌-ℤ◌ ◌*ℤ◌ active acquire release decrement drop_idle
    new_account_pool weigh_all initial_weight set_pool get_pool new_pool_manager pick scan charge
    cooldown cool_first Affinity.get Affinity.get_read Affinity.get_delete Affinity.key Affinity.set
    Affinity.evict_channel new_affinity_cache client_format upstream_format permission_for_format
    extract_bearer_token client_ip_candidates ip_allowed model_in_list permission_in_list attempt
    handle_buffered insert_by_priority by_priority get_channels get_adaptor ensure_valid_credentials
    pick_account first_target by_priority_target resolve_channel_and_account cooldown_and_evict
    pick_next retry_next authorize check_billing admit handle_streaming handle_force_stream dispatch
    with_slot handle_relay finish_stream serve parse_request inject_stream_true
    parse_non_stream_usage write_log refund_and_error refund_on_error settle_and_refund
handler = tt

-- The second account answers; two calls are made; a model that the token may not use is turned away.
relayed :
    ((handle_relay services (pos 7) relayer (request "gpt")).response.status ≡ 200)
    × (length (handle_relay services (pos 7) relayer (request "gpt")).relayer.sent ≡ 2)
    × ((handle_relay services (pos 7) relayer (request "o1")).response.status ≡ 403)
    × ((serve services (pos 7) relayer (request "gpt")).limiter.counts ≡ [])
unfolding handler
relayed = (refl, refl, refl, refl)

in_range : InRange relayer.limiter.limit (active relayer.limiter.counts)
unfolding active lookup
in_range k = (omega arith, omega arith)

serve-active_example :
    active (serve services (pos 7) relayer (request "gpt")).limiter.counts "t1"
    ≡ active relayer.limiter.counts "t1"
serve-active_example =
    serve-active services (pos 7) relayer (request "gpt") (omega arith) (omega arith) in_range "t1"

handle_relay-calls_example :
    length (handle_relay services (pos 7) relayer (request "gpt")).relayer.sent
    ≤ length relayer.sent + 3
handle_relay-calls_example = handle_relay-calls services (pos 7) relayer (request "gpt")

handle_relay-admits_example :
    ((handle_relay services (pos 7) relayer (request "gpt")).relayer.sent ≡ relayer.sent)
    ⊎ ((t : Token) × (rr : RelayRequest) × IsAuthorized (request "gpt") (pos 7) t
        × IsPermitted (request "gpt") t rr)
handle_relay-admits_example = handle_relay-admits services (pos 7) relayer (request "gpt")
