-- ===== src/Relay/Guards.antt =====
-- internal/relay/handler.go: the tests of `HandleRelay` before it looks for a channel.
use cli_relay.Prelude.{Bool, false, Option, none, some, if◌then◌else◌, ◌==◌, ◌&&◌, ◌||◌, not}
use cli_relay.Prelude.Int.{ℤ, ltb_ℤ}
use cli_relay.Prelude.Results.{Result, ok, err}
use cli_relay.Db.{Token, Database}
use cli_relay.Db.Queries.{first, is_live}
use cli_relay.Billing.{check_user_balance}
use cli_relay.Billing.Counts.{check_limit}
use cli_relay.Relay.Access.{
  client_format, permission_for_format, extract_bearer_token, client_ip_candidates, ip_allowed,
  model_in_list, permission_in_list,
}
use cli_relay.Relay.Http.{Request, Checked, pass, reject, ◌>>=◌, require, error_response}
use cli_relay.Relay.Requests.{RelayRequest, parse_request}
use cli_relay.Relay.State.{Services, Relayer}

abbrev token_or_reject : Result Token → Checked Token
token_or_reject (ok token) = pass token
token_or_reject (err e) = reject (error_response 401 "invalid token")

abbrev pub is_expired : Option ℤ → ℤ → Bool
is_expired none now = false
is_expired (some t) now = ltb_ℤ t now

-- The steps of `HandleRelay` before the slot is reserved: the key, the token, and the IP whitelist.
unfoldable pub authorize : Database → Request → ℤ → Checked Token
authorize db req now = do
  let key = extract_bearer_token req
  u ← require (not (key == "")) 401 "missing authorization"
  token ←
      token_or_reject
        (first db.failing (λ t. t.key == key && t.enabled && is_live t.deleted_at) db.tokens)
  v ← require (not (is_expired token.expires_at now)) 401 "token expired"
  w ←
      require (token.ip_whitelist == "" || ip_allowed token.ip_whitelist (client_ip_candidates req))
        403 "ip not whitelisted"
  pass token

abbrev within_limit : Result (Unit {0}) → Checked (Unit {0})
within_limit (ok u) = pass tt
within_limit (err e) = reject (error_response 429 "rate limit exceeded")

abbrev has_balance : Result (Unit {0}) → Checked (Unit {0})
has_balance (ok u) = pass tt
has_balance (err e) = reject (error_response 402 e)

unfoldable pub check_billing : Services → Relayer → Token → ℤ → Checked (Unit {0})
check_billing services r token now =
    if r.has_billing
    then (do
      u ← within_limit (check_limit services.times r.db token.id now)
      if token.user_id == ""
          then pass tt
          else has_balance (check_user_balance r.db token.user_id token.id))
    else pass tt

abbrev parsed_or_reject : Option RelayRequest → Checked RelayRequest
parsed_or_reject none = reject (error_response 400 "invalid request body")
parsed_or_reject (some rr) = pass rr

-- The steps with the slot reserved, before a channel is chosen.
unfoldable pub admit : Services → Relayer → Token → Request → ℤ → Checked RelayRequest
admit services r token req now = do
  u ← check_billing services r token now
  rr ← parsed_or_reject (parse_request req.content)
  v ← require (not (rr.model == "")) 400 "model is required"
  w ←
      require (token.models == "" || model_in_list rr.model token.models) 403
        "model not allowed for token"
  x ←
      require
        (token.permissions == ""
          || permission_in_list (permission_for_format (client_format req.path)) token.permissions)
        403 "permission not allowed for token"
  pass rr
