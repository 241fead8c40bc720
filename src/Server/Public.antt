-- ===== src/Server/Public.antt =====
-- The callers of the endpoints in internal/server/server.go.
use cli_relay.Prelude.{
  ℕ, String, Bool, true, none, some, List, [], ◌∷◌, ◌≡◌, refl, sym, subst, ap, ap₂, ◌∙◌, arith,
  ◌==◌, ◌&&◌, any, All, eq_iff, inl, inr, Bool-cases, Option-cases, some_inj, ltb, ◌^◌,
}
use cli_relay.Prelude.Int.{ℤ, pos, ltb_ℤ, ◌*ℤ◌}
use cli_relay.Prelude.Results.{Result, ok, err, Result-cases}
use cli_relay.Prelude.Text.{has_prefix, strip_prefix?}
use cli_relay.Auth.{Jwt, Claims, parse_token}
use cli_relay.Relay.Http.{Request}
use cli_relay.Server.Handler.{
  Action, Caller, relays, calls, answers, anyone, admin, user, require_token,
  require_auth_with_user, claims_in, claims_of_type, guarded, handle,
}
use cli_relay.Server.Literal.{is_literal, match_path-literal, lookup_route-All}
use cli_relay.Server.Router.{Params, Route, lookup_route}
use cli_relay.Server.Routes.{Guard, Endpoint, unguarded, admin_auth, user_auth, setup_routes}

abbrev public_routes : List (String × String)
public_routes =
    ("POST", "/api/admin/login")
    ∷ ("GET", "/api/admin/init-status")
    ∷ ("POST", "/api/admin/setup")
    ∷ ("GET", "/api/admin/channels/oauth/callback")
    ∷ ("POST", "/api/user/register")
    ∷ ("POST", "/api/user/login")
    ∷ ("POST", "/api/user/refresh")
    ∷ []

abbrev pub is_public : String → String → Bool
is_public method path = any (λ r. r.0 == method && r.1 == path) public_routes

-- A route that nothing guards is one of those, and its path has no parameters.
abbrev is_sound : Route Endpoint → Bool
is_sound rt = elim rt.handler.before [
  | unguarded ↦ is_literal rt.path && is_public rt.method rt.path
  | admin_auth ↦ true
  | user_auth ↦ true
]

abbrev all : List (Route Endpoint) → Bool
all [] = true
all (rt ∷ routes) = is_sound rt && all routes

all-All :
    (routes : List (Route Endpoint)) → all routes ≡ true → All (λ rt. is_sound rt ≡ true) routes
all-All [] h = tt
all-All (rt ∷ routes) h = (ground arith, all-All routes (ground arith))

routes_sound : All (λ rt. is_sound rt ≡ true) setup_routes
routes_sound = all-All setup_routes refl

unguarded_public :
    (method path : String) (endpoint : Endpoint) (params : Params)
    → lookup_route setup_routes method path ≡ some (endpoint, params)
    → endpoint.before ≡ unguarded
    → is_public method path ≡ true
unguarded_public method path endpoint params e open_to_all =
    let (rt, sound, same, verb, matched) =
      lookup_route-All (λ rt. is_sound rt ≡ true) setup_routes method path endpoint params
        routes_sound e in
    let before : rt.handler.before ≡ unguarded = ap (λ h. h.before) same ∙ open_to_all in
    let both : (is_literal rt.path && is_public rt.method rt.path) ≡ true =
      rw (before, is_sound) at sound in
    let own = match_path-literal rt.path path params (ground arith) matched in
    sym (ap₂ is_public verb own) ∙ ground arith

abbrev claims_or : Claims → Result Claims → Claims
claims_or c (ok found) = found
claims_or c (err m) = c

ok_inj : {c d : Claims} → ok c ≡ ok d → c ≡ d
ok_inj {c} e = ap (claims_or c) e

ok-err : {c : Claims} {m : String} → ok c ≡ err m → ⊥
ok-err e = cc

abbrev caller_of : Action → Caller
caller_of relays = anyone
caller_of (calls endpoint params caller) = caller
caller_of (answers status message) = anyone

calls-answers :
    {endpoint : Endpoint} {params : Params} {caller : Caller} {status : ℕ} {message : String}
    → answers status message ≡ calls endpoint params caller
    → ⊥
calls-answers e = cc

calls-relays :
    {endpoint : Endpoint} {params : Params} {caller : Caller}
    → relays ≡ calls endpoint params caller
    → ⊥
calls-relays e = cc

module _ (jwt : Jwt) (secret : String) (now : ℤ) where
  -- The request carries a token in force of this type, signed with the secret, with these claims.
  abbrev pub IsLoggedIn : Request → String → Claims → Type 0
  IsLoggedIn req type c =
      (token : String) × (strip_prefix? "Bearer " req.authorization ≡ some token)
      × (jwt.verify secret token ≡ some c)
      × (c.type ≡ type)
      × (ltb_ℤ now (c.expires_at *ℤ pos (10 ^ 9)) ≡ true)

  -- Anyone may call a public route, and a user or an administrator who is logged in as such.
  abbrev pub MayCall : Request → Caller → Type 0
  MayCall req anyone = is_public req.method req.path ≡ true
  MayCall req (user c) = IsLoggedIn req "user" c
  MayCall req (admin username) = (c : Claims) × (c.username ≡ username) × IsLoggedIn req "admin" c

  parse_token-ok :
      (token : String) (c : Claims)
      → parse_token jwt secret now token ≡ ok c
      → (jwt.verify secret token ≡ some c) × (ltb_ℤ now (c.expires_at *ℤ pos (10 ^ 9)) ≡ true)
  unfolding parse_token
  parse_token-ok token c e = elim (Option-cases (jwt.verify secret token)) [
    | inl unsigned ↦ absurd (ground (arith, unsigned))
    | inr (found, signed) ↦ elim (Bool-cases (ltb_ℤ now (found.expires_at *ℤ pos (10 ^ 9)))) [
      | inl valid ↦
          let same : found ≡ c = ok_inj (rw (signed, valid) at e) in
          (
            signed ∙ ap some same,
            subst (λ x. ltb_ℤ now (x.expires_at *ℤ pos (10 ^ 9)) ≡ true) same valid,
          )
      | inr over ↦ absurd (ok-err (sym (rw (signed, over) at e)))
    ]
  ]

  typed :
      (expected : String) (r : Result Claims) (c : Claims)
      → claims_of_type expected r ≡ ok c
      → (r ≡ ok c) × (c.type ≡ expected)
  typed expected (err m) c e = absurd (ok-err (sym e))
  typed expected (ok found) c e = elim (Bool-cases (found.type == expected)) [
    | inl right ↦
        let same : found ≡ c = ok_inj (rw right at e) in
        (ap ok same, subst (λ x. x.type ≡ expected) same ((eq_iff found.type expected).0 right))
    | inr wrong ↦ absurd (ok-err (sym (rw wrong at e)))
  ]

  claims_in-IsLoggedIn :
      (req : Request) (type : String) (c : Claims)
      → claims_in jwt secret now type (strip_prefix? "Bearer " req.authorization) ≡ ok c
      → IsLoggedIn req type c
  claims_in-IsLoggedIn req type c e =
      elim (Option-cases (strip_prefix? "Bearer " req.authorization)) [
        | inl missing ↦ absurd (ok-err (sym (rw missing at e)))
        | inr (token, sent) ↦
            let (parsed, right) = typed type (parse_token jwt secret now token) c (rw sent at e) in
            let (signed, valid) = parse_token-ok token c parsed in
            (token, sent, signed, right, valid)
      ]

  require_token-MayCall :
      (req : Request) (c : Claims)
      → require_token jwt secret now "user" req ≡ ok c
      → MayCall req (user c)
  unfolding require_token
  require_token-MayCall req c e = claims_in-IsLoggedIn req "user" c e

  require_auth-MayCall :
      (req : Request) (username : String)
      → require_auth_with_user jwt secret now req ≡ some username
      → MayCall req (admin username)
  unfolding require_auth_with_user
  require_auth-MayCall req username e =
      let r = claims_in jwt secret now "admin" (strip_prefix? "Bearer " req.authorization) in
      elim (Result-cases r) [
        | inl (m, refused) ↦ let gone : none ≡ some username = rw refused at e in cc
        | inr (c, accepted) ↦
            (c, some_inj (rw accepted at e), claims_in-IsLoggedIn req "admin" c accepted)
      ]

  guarded-MayCall :
      (req : Request) (endpoint called : Endpoint) (params given : Params) (caller : Caller)
      (g : Guard)
      → lookup_route setup_routes req.method req.path ≡ some (endpoint, params)
      → endpoint.before ≡ g
      → guarded jwt secret now req endpoint params g ≡ calls called given caller
      → MayCall req caller
  guarded-MayCall req endpoint called params given caller unguarded found before e =
      subst (MayCall req) (ap caller_of e)
        (unguarded_public req.method req.path endpoint params found before)
  guarded-MayCall req endpoint called params given caller user_auth found before e =
      elim (Result-cases (require_token jwt secret now "user" req)) [
        | inl (m, refused) ↦ absurd (calls-answers (rw refused at e))
        | inr (c, accepted) ↦
            subst (MayCall req) (ap caller_of (rw accepted at e))
              (require_token-MayCall req c accepted)
      ]
  guarded-MayCall req endpoint called params given caller admin_auth found before e =
      elim (Bool-cases (req.method == "OPTIONS")) [
        | inl options ↦ absurd (calls-answers (rw options at e))
        | inr other ↦ elim (Option-cases (require_auth_with_user jwt secret now req)) [
          | inl refused ↦ absurd (calls-answers (rw (other, refused) at e))
          | inr (username, accepted) ↦
              subst (MayCall req) (ap caller_of (rw (other, accepted) at e))
                (require_auth-MayCall req username accepted)
        ]
      ]

  -- The server calls an endpoint for anyone only on one of the seven public routes, and else only
  -- for a user or an administrator whose request carries a token of that type that is signed with
  -- the secret and has not expired.
  pub handle-MayCall :
      (max_body_size body_size : ℕ) (req : Request) (endpoint : Endpoint) (params : Params)
      (caller : Caller)
      → handle jwt secret now max_body_size body_size req ≡ calls endpoint params caller
      → MayCall req caller
  unfolding handle
  handle-MayCall max_body_size body_size req endpoint params caller e =
      elim (Bool-cases (ltb max_body_size body_size)) [
        | inl large ↦ absurd (calls-answers (rw large at e))
        | inr fits ↦ elim (Bool-cases (has_prefix "/v1/" req.path)) [
          | inl relayed ↦ absurd (calls-relays (rw (fits, relayed) at e))
          | inr api ↦ elim (Option-cases (lookup_route setup_routes req.method req.path)) [
            | inl unknown ↦ absurd (calls-answers (rw (fits, api, unknown) at e))
            | inr ((found, given), known) ↦
                guarded-MayCall req found endpoint given params caller found.before known refl
                  (rw (fits, api, known) at e)
          ]
        ]
      ]
