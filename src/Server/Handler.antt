-- ===== src/Server/Handler.antt =====
-- internal/server/server.go, internal/auth/middleware.go and `RequireAuthWithUser` of
-- internal/admin/handler.go: what the server does with a request: it relays it, calls an endpoint, or
-- answers by itself.
use cli_relay.Prelude.{ℕ, String, Option, none, some, if◌then◌else◌, ◌==◌, ltb}
use cli_relay.Prelude.Int.{ℤ}
use cli_relay.Prelude.Results.{Result, ok, err}
use cli_relay.Prelude.Text.{has_prefix, strip_prefix?}
use cli_relay.Auth.{Jwt, Claims, parse_token}
use cli_relay.Relay.Http.{Request}
use cli_relay.Server.Router.{Params, lookup_route}
use cli_relay.Server.Routes.{Guard, Endpoint, unguarded, admin_auth, user_auth, setup_routes}

-- What comes of a request. `calls` has the endpoint, the parameters of its path, and who calls it.
pub data Caller : Type 0 where
  anyone : Caller
  admin : String → Caller
  user : Claims → Caller

pub data Action : Type 0 where
  relays : Action
  calls : Endpoint → Params → Caller → Action
  answers : ℕ → String → Action

abbrev pub claims_of_type : String → Result Claims → Result Claims
claims_of_type expected (err e) = err e
claims_of_type expected (ok claims) =
    if claims.type == expected then ok claims else err "invalid token type"

abbrev pub claims_in : Jwt → String → ℤ → String → Option String → Result Claims
claims_in jwt secret now expected none = err "missing authorization header"
claims_in jwt secret now expected (some token) =
    claims_of_type expected (parse_token jwt secret now token)

-- `requireToken`: the claims that it sets, or the message of its answer.
unfoldable pub require_token : Jwt → String → ℤ → String → Request → Result Claims
require_token jwt secret now expected req =
    claims_in jwt secret now expected (strip_prefix? "Bearer " req.authorization)

abbrev username_of : Result Claims → Option String
username_of (err e) = none
username_of (ok claims) = some claims.username

-- `RequireAuthWithUser`: the user name, or none where it has answered "unauthorized".
unfoldable pub require_auth_with_user : Jwt → String → ℤ → Request → Option String
require_auth_with_user jwt secret now req =
    username_of (claims_in jwt secret now "admin" (strip_prefix? "Bearer " req.authorization))

module _ (jwt : Jwt) (secret : String) (now : ℤ) where
  abbrev as_user : Endpoint → Params → Result Claims → Action
  as_user endpoint params (err e) = answers 401 e
  as_user endpoint params (ok claims) = calls endpoint params (user claims)

  abbrev as_admin : Endpoint → Params → Option String → Action
  as_admin endpoint params none = answers 401 "unauthorized"
  as_admin endpoint params (some username) = calls endpoint params (admin username)

  -- The route's middleware, and then its handler.
  abbrev pub guarded : Request → Endpoint → Params → Guard → Action
  guarded req endpoint params unguarded = calls endpoint params anyone
  guarded req endpoint params user_auth =
      as_user endpoint params (require_token jwt secret now "user" req)
  guarded req endpoint params admin_auth =
      if req.method == "OPTIONS"
      then answers 204 ""
      else as_admin endpoint params (require_auth_with_user jwt secret now req)

  abbrev routed : Request → Option (Endpoint × Params) → Action
  routed req none = answers 404 "not found"
  routed req (some (endpoint, params)) = guarded req endpoint params endpoint.before

  -- `Server.handler`, for a body of this many bytes.
  unfoldable pub handle : ℕ → ℕ → Request → Action
  handle max_body_size body_size req =
      if ltb max_body_size body_size
      then answers 413 "request body too large"
      else if has_prefix "/v1/" req.path
      then relays
      else routed req (lookup_route setup_routes req.method req.path)
