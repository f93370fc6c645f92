-- ===== src/Disks.antt =====
-- internal/disks.
pub mod Health
pub mod Smart
mod Tests
