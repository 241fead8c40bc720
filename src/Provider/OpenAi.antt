-- ===== src/Provider/OpenAi.antt =====
-- internal/relay/provider/openai: the formats of Chat Completions and of the Responses API.
pub mod Parse
pub mod Build
pub mod Responses
pub mod Adaptor
pub mod Messages
pub mod Requests
pub mod Answers
pub mod Lost
