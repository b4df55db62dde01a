-- ===== src/Schedule.antt =====
-- The calendar arithmetic behind free/busy answers (crates/app/src/runtime/schedule.rs and below).
pub mod Interval
pub mod Slots
pub mod Coverage
pub mod Separation
pub mod Chunks
pub mod Availability
pub mod Statuses
pub mod Conflicts
pub mod Assess
pub mod Attendable
pub mod Suitable
pub mod Verdict
pub mod Windows
pub mod Eroded
pub mod FreeSlot
pub mod FreeWindows
mod RankedTests
mod Tests
