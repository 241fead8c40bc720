-- ===== src/Server/Tests.antt =====
-- Tests of the router and the server, and their theorems at concrete inputs.
use cli_relay.Prelude.{String, none, some, [], ◌∷◌, ◌≡◌, ◌*◌, ◌^◌, refl, if◌then◌else◌, ◌==◌}
use cli_relay.Prelude.Int.{pos, ◌*ℤ◌}
use cli_relay.Prelude.Maps.{insert}
use cli_relay.Prelude.Results.{err}
use cli_relay.Prelude.Text.{append, has_prefix, strip_prefix?}
use cli_relay.Auth.{Jwt, Claims, parse_token}
use cli_relay.Relay.Access.{client_format}
use cli_relay.Relay.Http.{Request, raw}
use cli_relay.Server.Handler.{
  relays, calls, answers, user, require_token, require_auth_with_user, handle,
}
use cli_relay.Server.Public.{MayCall, handle-MayCall}
use cli_relay.Server.Router.{
  segment, after_segment, match_from, before_star, match_path, lookup_route,
}
use cli_relay.Server.Routes.{Endpoint, user_auth}

abbrev claims : Claims
claims = record {
  expires_at = pos 9;
  issued_at = pos 0;
  user_id = "u1";
  username = "a";
  type = "user";
}

-- The one token that is signed is "good".
abbrev jwt : Jwt
jwt = record {
  signed_string = λ secret c. err "sealed";
  verify = λ secret token. if token == "good" then some claims else none;
}

abbrev request : String → String → Request
request path authorization = record {
  path = path;
  method = "DELETE";
  authorization = authorization;
  remote_ip = "";
  x_real_ip = "";
  x_forwarded_for = "";
  content = raw "";
}

abbrev endpoint : Endpoint
endpoint = record { name = "userHandler.DeleteKey"; before = user_auth }

server : Unit {0}
unfolding insert append has_prefix strip_prefix? parse_token require_token require_auth_with_user
    handle segment after_segment match_from before_star match_path lookup_route client_format ◌*ℤ◌
server = tt

patterns :
    (match_path "/api/user/keys/:keyID" "/api/user/keys/k7" ≡ some (("keyID", "k7") ∷ []))
    × (match_path "/api/user/keys/:keyID" "/api/user/keys/k7/x" ≡ none)
    × (match_path "/a/:b/c/:d" "/a/1/c/2" ≡ some (("d", "2") ∷ ("b", "1") ∷ []))
    × (match_path "/files/*" "/files/x/y" ≡ some [])
unfolding server
patterns = (refl, refl, refl, refl)

handled :
    (handle jwt "s" (pos 1) 100 7 (request "/api/user/keys/k7" "Bearer good")
      ≡ calls endpoint (("keyID", "k7") ∷ []) (user claims))
    × (handle jwt "s" (pos 1) 100 7 (request "/api/user/keys/k7" "Bearer bad")
        ≡ answers 401 "invalid token")
    × (handle jwt "s" (pos (9 * 10 ^ 9)) 100 7 (request "/api/user/keys/k7" "Bearer good")
        ≡ answers 401 "token expired")
    × (handle jwt "s" (pos 1) 100 7 (request "/v1/messages" "") ≡ relays)
unfolding server
handled = (refl, refl, refl, refl)

handle-MayCall_example :
    MayCall jwt "s" (pos 1) (request "/api/user/keys/k7" "Bearer good") (user claims)
unfolding server
handle-MayCall_example =
    handle-MayCall jwt "s" (pos 1) 100 7 (request "/api/user/keys/k7" "Bearer good") endpoint
      (("keyID", "k7") ∷ []) (user claims) refl
