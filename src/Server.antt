-- ===== src/Server.antt =====
-- internal/server: the HTTP front end.
pub mod Limiter
pub mod Web
pub mod Handlers
pub mod Tests
