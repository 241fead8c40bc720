-- ===== src/Relay.antt =====
-- internal/relay/handler.go: the handler that relays a client's request to a channel.
pub mod Http
pub mod Access
pub mod Requests
pub mod State
pub mod Channels
pub mod Errors
pub mod Settling
pub mod Buffered
pub mod Guards
pub mod Handler
pub mod Choosing
pub mod Slots
pub mod Freed
pub mod Admission
pub mod Calls
pub mod Refunds
pub mod Tests
mod RefundTests
