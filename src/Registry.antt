-- ===== src/Registry.antt =====
-- internal/registry: image references, registry answers, and the check for newer images.
pub mod Reference
pub mod Challenge
pub mod Manifest
pub mod Tokens
pub mod Checker
mod Tests
