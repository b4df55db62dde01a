-- ===== src/Policy.antt =====
-- The server's device policy (crates/eas/src/protocol/policy.rs).
pub mod Integer
pub mod Fields
pub mod Evaluate
pub mod Decision
pub mod Readings
pub mod Checks
pub mod Meanings
pub mod Checked
pub mod Supported
pub mod Limits
mod Tests
