-- ===== src/Provider.antt =====
-- internal/relay/provider: the formats of the providers, and the conversions between them by way of
-- an internal form of requests and responses.
pub mod Values
pub mod Internal
pub mod OpenAi
pub mod Codec
pub mod Credentials
pub mod Anthropic
pub mod Gemini
pub mod Convert
pub mod Chunks
pub mod Contents
pub mod Settings
pub mod Total
mod Tests
