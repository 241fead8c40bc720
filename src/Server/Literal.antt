-- ===== src/Server/Literal.antt =====
-- Patterns without parameters and stars in `matchPath` of internal/server/router.go.
use cli_relay.Prelude.{
  String, Bool, true, none, some, List, [], ◌∷◌, ◌≡◌, refl, sym, ap, ap₂, ◌∙◌, arith, ◌==◌, ◌&&◌,
  ◌||◌, not, eq_iff, inl, inr, Bool-cases, Option-cases, All, some_inj,
}
use cli_relay.Server.Router.{
  Params, at_char, match_from, match_path, before_star, same_char, Route, lookup_route,
}
use text.Mathlib.TextEquality.{Char-path}
use Prim.Native.Char.{Char}

abbrev pub is_literal : String → Bool
is_literal String.[] = true
is_literal (String.◌∷◌ c p) = not (same_char c ":" || same_char c "*") && is_literal p

before_star-literal : (p : String) → is_literal p ≡ true → before_star p ≡ none
unfolding before_star
before_star-literal String.[] h = refl
before_star-literal (String.◌∷◌ c String.[]) h = ground arith
before_star-literal (String.◌∷◌ c (String.◌∷◌ d p)) h =
    ground (arith, before_star-literal (String.◌∷◌ d p))

same_char-eq : (c d : Char) → same_char c d ≡ true → c ≡ d
same_char-eq c d h = Char-path c d (ground arith)

match_from-literal :
    (p s : String) (params : Params)
    → is_literal p ≡ true
    → match_from p at_char s ≡ some params
    → p ≡ s
unfolding match_from
match_from-literal String.[] s params h e = elim (Bool-cases (s == "")) [
  | inl blank ↦ sym ((eq_iff s "").0 blank)
  | inr full ↦ absurd (ground (arith, full))
]
match_from-literal (String.◌∷◌ c p) String.[] params h e = cc
match_from-literal (String.◌∷◌ c p) (String.◌∷◌ d s) params h e =
    let same : same_char c d ≡ true = ground arith in
    let next : match_from p at_char s ≡ some params = ground arith in
    ap₂ (λ a t. String.◌∷◌ a t) (same_char-eq c d same)
      (match_from-literal p s params (ground arith) next)

pub match_path-literal :
    (p path : String) (params : Params)
    → is_literal p ≡ true
    → match_path p path ≡ some params
    → p ≡ path
unfolding match_path
match_path-literal p path params h e = elim (Bool-cases (p == path)) [
  | inl same ↦ (eq_iff p path).0 same
  | inr other ↦ match_from-literal p path params h (rw (other, before_star-literal p h) at e)
]

-- What holds of the handler of every route holds of the handler that a lookup finds, and its route's
-- path is the one that is asked for, if it is literal.
pub lookup_route-All {ℓ κ} :
    {Handler : Type ℓ} (P : Route Handler → Type κ) (routes : List (Route Handler))
    (method path : String) (handler : Handler) (params : Params)
    → All P routes
    → lookup_route routes method path ≡ some (handler, params)
    → (rt : Route Handler) × P rt
      × (rt.handler ≡ handler)
      × (rt.method ≡ method)
      × (match_path rt.path path ≡ some params)
unfolding lookup_route
lookup_route-All P [] method path handler params h e = cc
lookup_route-All P (rt ∷ routes) method path handler params (h, hs) e =
    elim (Bool-cases (rt.method == method)) [
      | inr other ↦ lookup_route-All P routes method path handler params hs (rw other at e)
      | inl same ↦ elim (Option-cases (match_path rt.path path)) [
        | inl unmatched ↦
            lookup_route-All P routes method path handler params hs (rw (same, unmatched) at e)
        | inr (found, matched) ↦
            let here : some (rt.handler, found) ≡ some (handler, params) =
              rw (same, matched) at e in
            let pair = some_inj here in
            (
              rt,
              h,
              ap (λ q. q.0) pair,
              (eq_iff rt.method method).0 same,
              matched ∙ ap (λ q. some q.1) pair,
            )
      ]
    ]
