-- ===== src/Streaming.antt =====
-- internal/relay: server-sent events, forwarded to the client or gathered into one answer.
pub mod Gather
pub mod Texts
pub mod Answer
pub mod Reader
pub mod Forward
pub mod Readings
pub mod Usage
mod Tests
