-- ===== src/Server/Router.antt =====
-- internal/server/router.go: the routes in their order, and the patterns of their paths.
use cli_relay.Prelude.{
  String, Bool, false, Option, none, some, List, [], ◌∷◌, if◌then◌else◌, ◌==◌, ◌&&◌, leb,
}
use cli_relay.Prelude.Maps.{insert}
use cli_relay.Prelude.Text.{append, has_prefix}
use Prim.Native.Char.{Char, code}

abbrev pub Params : Type 0
Params = List (String × String)

abbrev pub same_char : Char → Char → Bool
same_char c d = leb (code c) (code d) && leb (code d) (code c)

-- The text up to the next slash, and from it on.
unfoldable pub segment : String → String
segment String.[] = ""
segment (String.◌∷◌ c s) = if same_char c "/" then "" else String.◌∷◌ c (segment s)

unfoldable pub after_segment : String → String
after_segment String.[] = ""
after_segment (String.◌∷◌ c s) = if same_char c "/" then String.◌∷◌ c s else after_segment s

-- Where the loop of `matchPath` stands in the pattern: at a character, or in the name of a parameter
-- whose value has been read.
pub data Place : Type 0 where
  at_char : Place
  in_name : String → String → Place

abbrev end_of : String → Params → Option Params
end_of s params = if s == "" then some params else none

abbrev with_param : String → String → Option Params → Option Params
with_param name value none = none
with_param name value (some params) = some (insert name value params)

-- The loop of `matchPath` over what is left of the pattern and of the path.
unfoldable pub match_from : String → Place → String → Option Params
match_from String.[] at_char s = end_of s []
match_from String.[] (in_name name value) s = end_of s ((name, value) ∷ [])
match_from (String.◌∷◌ c p) at_char String.[] = none
match_from (String.◌∷◌ c p) at_char (String.◌∷◌ d s) =
    let path = String.◌∷◌ d s in
    let param = match_from p (in_name "" (segment path)) (after_segment path) in
    let next = match_from p at_char s in
    if same_char c ":" then param else if same_char c d then next else none
match_from (String.◌∷◌ c p) (in_name name value) String.[] =
    let rest = match_from p (in_name (append name (String.◌∷◌ c "")) value) "" in
    if same_char c "/" then none else rest
match_from (String.◌∷◌ c p) (in_name name value) (String.◌∷◌ d s) =
    let next = match_from p at_char s in
    let rest = match_from p (in_name (append name (String.◌∷◌ c "")) value) (String.◌∷◌ d s) in
    if same_char c "/" then if same_char c d then with_param name value next else none else rest

-- What stands before a star at the end of the pattern.
unfoldable pub before_star : String → Option String
before_star String.[] = none
before_star (String.◌∷◌ c String.[]) = if same_char c "*" then some "" else none
before_star (String.◌∷◌ c (String.◌∷◌ d p)) = elim (before_star (String.◌∷◌ d p)) [
  | none ↦ none
  | some prefix ↦ some (String.◌∷◌ c prefix)
]

abbrev pub is_under : Option String → String → Bool
is_under none path = false
is_under (some prefix) path = has_prefix prefix path

unfoldable pub match_path : String → String → Option Params
match_path pattern path =
    if pattern == path
    then some []
    else if is_under (before_star pattern) path
    then some []
    else match_from pattern at_char path

pub record Route {ℓ} (Handler : Type ℓ) : Type ℓ where
  pub method : String
  pub path : String
  pub handler : Handler

abbrev or_later {ℓ} :
    {Handler : Type ℓ}
    → Handler
    → Option (Handler × Params)
    → Option Params
    → Option (Handler × Params)
or_later handler later none = later
or_later handler later (some params) = some (handler, params)

-- `Router.Lookup`
unfoldable pub lookup_route {ℓ} :
    {Handler : Type ℓ} → List (Route Handler) → String → String → Option (Handler × Params)
lookup_route [] method path = none
lookup_route (rt ∷ routes) method path =
    let later = lookup_route routes method path in
    if rt.method == method then or_later rt.handler later (match_path rt.path path) else later
