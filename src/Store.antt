-- ===== src/Store.antt =====
-- internal/store: the SQLite tables that the other parts read and write.
pub mod Alerts
pub mod Images
pub mod Disks
pub mod Events
pub mod Containers
pub mod Rollup
pub mod Samples
pub mod Maintenance
mod Tests
mod RecordTests
