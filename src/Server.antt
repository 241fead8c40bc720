-- ===== src/Server.antt =====
-- internal/server, with internal/auth/middleware.go: which requests reach which handler.
pub mod Router
pub mod Routes
pub mod Handler
pub mod Literal
pub mod Public
mod Tests
