-- ===== src/Relay/Admission.antt =====
-- The tests of `HandleRelay` in internal/relay/handler.go, and the requests that reach an upstream
-- service.
use cli_relay.Prelude.{
  String, Bool, true, false, some, ◌≡◌, refl, arith, inl, inr, ◌⊎◌, ◌==◌, ◌&&◌, ◌||◌, eq_iff, find,
  find-true,
}
use cli_relay.Prelude.Int.{ℤ}
use cli_relay.Db.{Database, Token}
use cli_relay.Db.Queries.{is_live}
use cli_relay.Limiter.{acquire}
use cli_relay.Relay.Access.{
  client_format, permission_for_format, extract_bearer_token, client_ip_candidates, ip_allowed,
  model_in_list, permission_in_list,
}
use cli_relay.Relay.Guards.{authorize, admit, is_expired}
use cli_relay.Relay.Handler.{with_slot, handle_relay}
use cli_relay.Relay.Http.{Request, Response, Checked, pass, reject}
use cli_relay.Relay.Requests.{RelayRequest, parse_request}
use cli_relay.Relay.State.{Services, Relayer}

Checked-cases {ℓ} :
    {A : Type ℓ} (c : Checked A) → ((e : Response) × (c ≡ reject e)) ⊎ ((a : A) × (c ≡ pass a))
Checked-cases (reject e) = inl (e, refl)
Checked-cases (pass a) = inr (a, refl)

-- The token is the one of the request's key, is in force, and may be used from where the request
-- comes from.
pub record IsAuthorized (req : Request) (now : ℤ) (token : Token) : Type 0 where
  pub own : token.key ≡ extract_bearer_token req
  pub some_key : (extract_bearer_token req == "") ≡ false
  pub enabled : token.enabled ≡ true
  pub live : is_live token.deleted_at ≡ true
  pub unexpired : is_expired token.expires_at now ≡ false
  pub from_allowed_ip :
      (token.ip_whitelist == "" || ip_allowed token.ip_whitelist (client_ip_candidates req)) ≡ true

-- The body asks for a model that the token may use, in a format that it may use.
pub record IsPermitted (req : Request) (token : Token) (rr : RelayRequest) : Type 0 where
  pub parsed : parse_request req.content ≡ some rr
  pub some_model : (rr.model == "") ≡ false
  pub model_allowed : (token.models == "" || model_in_list rr.model token.models) ≡ true
  pub format_allowed :
      (token.permissions == ""
        || permission_in_list (permission_for_format (client_format req.path)) token.permissions)
      ≡ true

abbrev has_key : String → Token → Bool
has_key key t = t.key == key && t.enabled && is_live t.deleted_at

authorize-pass :
    (db : Database) (req : Request) (now : ℤ) (token : Token)
    → authorize db req now ≡ pass token
    → (find (has_key (extract_bearer_token req)) db.tokens ≡ some token)
      × ((extract_bearer_token req == "") ≡ false)
      × (is_expired token.expires_at now ≡ false)
      × ((token.ip_whitelist == "" || ip_allowed token.ip_whitelist (client_ip_candidates req))
          ≡ true)
unfolding authorize
authorize-pass db req now token e = ground arith

-- A request is authorized only on these grounds.
authorize-IsAuthorized :
    (db : Database) (req : Request) (now : ℤ) (token : Token)
    → authorize db req now ≡ pass token
    → IsAuthorized req now token
authorize-IsAuthorized db req now token e =
    let (found, some_key, unexpired, ip) = authorize-pass db req now token e in
    let held = find-true (has_key (extract_bearer_token req)) db.tokens token found in
    record {
      own = (eq_iff token.key (extract_bearer_token req)).0 (ground arith);
      some_key = some_key;
      enabled = ground arith;
      live = ground arith;
      unexpired = unexpired;
      from_allowed_ip = ip;
    }

module _ (services : Services) (now : ℤ) where
  admit-pass :
      (r : Relayer) (token : Token) (req : Request) (rr : RelayRequest)
      → admit services r token req now ≡ pass rr
      → (parse_request req.content ≡ some rr)
        × ((rr.model == "") ≡ false)
        × ((token.models == "" || model_in_list rr.model token.models) ≡ true)
        × ((token.permissions == ""
              || permission_in_list
                  (permission_for_format (client_format req.path))
                  token.permissions)
            ≡ true)
  unfolding admit
  admit-pass r token req rr e = ground arith

  admit-IsPermitted :
      (r : Relayer) (token : Token) (req : Request) (rr : RelayRequest)
      → admit services r token req now ≡ pass rr
      → IsPermitted req token rr
  admit-IsPermitted r token req rr e =
      let (parsed, some_model, models, formats) = admit-pass r token req rr e in
      record {
        parsed = parsed;
        some_model = some_model;
        model_allowed = models;
        format_allowed = formats;
      }

  with_slot-rejected :
      (r : Relayer) (token : Token) (req : Request) (e : Response)
      → admit services r token req now ≡ reject e
      → (with_slot services now r token req).relayer.sent ≡ r.sent
  unfolding with_slot
  with_slot-rejected r token req e h = rw h refl

  -- A request that reaches an upstream service has a token that is in force, that may be used from
  -- where it comes, and for the model and the format that it asks for.
  pub handle_relay-admits :
      (r : Relayer) (req : Request)
      → ((handle_relay services now r req).relayer.sent ≡ r.sent)
        ⊎ ((token : Token) × (rr : RelayRequest) × IsAuthorized req now token
            × IsPermitted req token rr)
  unfolding handle_relay
  handle_relay-admits r req = elim (Checked-cases (authorize r.db req now)) [
    | inl (e, rejected) ↦ inl (rw rejected refl)
    | inr (token, passed) ↦
        let reserved = record r { limiter = (acquire r.limiter token.id).0 } in
        elim (Checked-cases (admit services reserved token req now)) [
          | inl (e, rejected) ↦ inl (
              let unsent = with_slot-rejected reserved token req e rejected in
              rw passed (ground arith))
          | inr (rr, permitted) ↦ inr (
            token,
            rr,
            authorize-IsAuthorized r.db req now token passed,
            admit-IsPermitted reserved token req rr permitted,
          )
        ]
  ]
