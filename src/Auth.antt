-- ===== src/Auth.antt =====
-- internal/auth: passwords, users and sessions.
pub mod Passwords
pub mod Users
pub mod Sessions
pub mod Tests
