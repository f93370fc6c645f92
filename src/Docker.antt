-- ===== src/Docker.antt =====
-- internal/docker.
pub mod Stats
pub mod Logs
mod Tests
mod LogTests
