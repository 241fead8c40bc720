-- ===== src/Relay/Access.antt =====
-- internal/relay/handler.go: who may send what. The client's format, the token's key, its IP
-- whitelist, its models and its permissions.
use cli_relay.Prelude.{
  ℕ, leb, String, Bool, Option, none, some, List, [], ◌∷◌, if◌then◌else◌, ◌==◌, ◌&&◌, ◌++◌, not,
  any,
}
use cli_relay.Prelude.Text.{trim_space, split_comma, has_prefix, strip_prefix?}
use cli_relay.Relay.Http.{Request}

-- `provider.Format`
pub data Format : Type 0 where
  openai_chat : Format
  openai_resp : Format
  anthropic : Format
  gemini : Format

abbrev number_of : Format → ℕ
number_of openai_chat = 0
number_of openai_resp = 1
number_of anthropic = 2
number_of gemini = 3

abbrev pub same_format : Format → Format → Bool
same_format f g = leb (number_of f) (number_of g) && leb (number_of g) (number_of f)

-- The format of the client, from the path of its request.
unfoldable pub client_format : String → Format
client_format path =
    if has_prefix "/v1/chat/completions" path
    then openai_chat
    else if has_prefix "/v1/responses" path
    then openai_resp
    else if has_prefix "/v1/messages" path
    then anthropic
    else if has_prefix "/v1beta/" path
    then gemini
    else openai_chat

-- The format that a channel takes, from its type and its API format.
unfoldable pub upstream_format : String → String → Format
upstream_format type api_format =
    if type == "openai"
    then if api_format == "responses" then openai_resp else openai_chat
    else if type == "anthropic"
    then anthropic
    else if type == "gemini"
    then gemini
    else openai_chat

unfoldable pub permission_for_format : Format → String
permission_for_format anthropic = "messages"
permission_for_format gemini = "gemini"
permission_for_format openai_resp = "responses"
permission_for_format openai_chat = "chat"

abbrev text_or_empty : Option String → String
text_or_empty none = ""
text_or_empty (some s) = s

unfoldable pub extract_bearer_token : Request → String
extract_bearer_token req = text_or_empty (strip_prefix? "Bearer " req.authorization)

abbrev first_part : List String → String
first_part [] = ""
first_part (p ∷ ps) = p

abbrev unless_empty : String → List String
unless_empty s = if s == "" then [] else s ∷ []

abbrev forwarded : String → List String
forwarded s = if s == "" then [] else unless_empty (trim_space (first_part (split_comma s)))

unfoldable pub client_ip_candidates : Request → List String
client_ip_candidates req =
    req.remote_ip ∷ unless_empty (trim_space req.x_real_ip)
    ++ forwarded (trim_space req.x_forwarded_for)

-- The loops over the whitelist and the candidates.
unfoldable pub ip_allowed : String → List String → Bool
ip_allowed whitelist candidates =
    any
      (λ part.
        let allowed_ip = trim_space part in
        not (allowed_ip == "") && any (λ client_ip. allowed_ip == client_ip) candidates)
      (split_comma whitelist)

-- `modelInList` and `permissionInList`, which are the same loop.
unfoldable pub model_in_list : String → String → Bool
model_in_list model list = any (λ m. trim_space m == model) (split_comma list)

unfoldable pub permission_in_list : String → String → Bool
permission_in_list permission list = any (λ item. trim_space item == permission) (split_comma list)
