-- ===== src/Provider/Gemini.antt =====
-- internal/relay/provider/gemini: the format of `generateContent`.
pub mod Parse
pub mod Build
pub mod Responses
pub mod Adaptor
pub mod Settings
pub mod Streams
pub mod Reverse
pub mod Words
pub mod Spoken
pub mod Reversed
