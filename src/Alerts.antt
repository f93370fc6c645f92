-- ===== src/Alerts.antt =====
-- internal/alerts: the engine that turns conditions into alerts, the rules that produce the
-- conditions, and the delivery of notifications.
pub mod Format
pub mod Engine
pub mod Deliver
pub mod Rules
mod Tests
