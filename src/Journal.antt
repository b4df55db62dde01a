-- ===== src/Journal.antt =====
-- The journal of operations (crates/app/src/journal).
pub mod Model
pub mod Table
pub mod Idempotent
pub mod Finished
pub mod View
pub mod Abstract
pub mod Pruned
mod Tests
