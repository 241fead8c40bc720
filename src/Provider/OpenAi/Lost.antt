-- ===== src/Provider/OpenAi/Lost.antt =====
-- internal/relay/provider/openai/adaptor.go: the converters that are registered for the Responses API,
-- one of which is that of the Chat Completions API.
use cli_relay.Prelude.{none, [], ◌≡◌, refl}
use cli_relay.Prelude.Results.{ok, ◌>>=◌}
use cli_relay.Provider.Internal.{InternalRequest}
use cli_relay.Provider.Values
use cli_relay.Provider.OpenAi.Parse
use cli_relay.Provider.OpenAi.Build

module _ (req : InternalRequest) where
  -- The body, read as one of the Chat Completions API.
  abbrev misread : InternalRequest
  misread = Parse.open_ai_request_of (Build.responses_request req)

  model : misread.model ≡ req.model
  unfolding Parse.open_ai_request_of Build.responses_request
  model = simp Values.fields

  messages : misread.messages ≡ []
  unfolding Parse.open_ai_request_of Build.responses_request
  messages = simp Values.fields (unfold Values.as_list Values.objects in refl)

  bound : misread.max_tokens ≡ none
  unfolding Parse.open_ai_request_of Build.responses_request
  bound = simp Values.fields

-- A request that the relay itself writes for the Responses API, and a client could send it, loses all
-- its messages and its bound on the tokens when it is read as the body of such a client.
pub open_ai_chat_to_internal-internal_to_responses :
    (req : InternalRequest)
    → (back : InternalRequest) × ((Build.internal_to_responses req >>= λ body.
          Parse.open_ai_chat_to_internal body)
        ≡ ok back)
      × (back.model ≡ req.model)
      × (back.messages ≡ [])
      × (back.max_tokens ≡ none)
unfolding Build.internal_to_responses Parse.open_ai_chat_to_internal
open_ai_chat_to_internal-internal_to_responses req =
    (misread req, refl, model req, messages req, bound req)
