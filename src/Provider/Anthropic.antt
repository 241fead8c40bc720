-- ===== src/Provider/Anthropic.antt =====
-- internal/relay/provider/anthropic: the format of the Messages API.
pub mod Parse
pub mod Build
pub mod Responses
pub mod Adaptor
pub mod Settings
pub mod Answers
pub mod Streams
pub mod Reverse
pub mod Words
pub mod StreamTrip
