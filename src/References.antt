-- ===== src/References.antt =====
-- The pagination cursors and the portable references (crates/app/src/references.rs and
-- references/object.rs).
pub mod Cursors
pub mod Keys
pub mod Taking
pub mod InSync
pub mod Paging
pub mod Continues
pub mod Reached
mod Tests
pub mod Simple
mod ObjectTests
pub mod Payloads
pub mod Object
pub mod Portable
pub mod Kept
