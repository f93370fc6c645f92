-- ===== src/Auth.antt =====
-- internal/auth: the login rate limiter and the session tokens.
pub mod Limiter
pub mod Session
pub mod Csrf
mod Tests
