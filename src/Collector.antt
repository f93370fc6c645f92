-- ===== src/Collector.antt =====
-- internal/collector.
pub mod Counters
pub mod State
pub mod Stacks
pub mod Bus
pub mod Inspect
pub mod Inventory
pub mod Events
pub mod LogScan
pub mod HostCycle
mod Tests
mod InventoryTests
mod HostTests
