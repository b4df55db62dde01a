-- ===== src/Writes.antt =====
-- Writes to a mailbox, recorded in the journal (crates/app/src/runtime).
pub mod World
pub mod Finish
pub mod Handlers
pub mod Recorded
pub mod Covers
pub mod Settled
pub mod Once
pub mod Opens
pub mod Mail
pub mod Mutation
pub mod MutationOnce
pub mod Replayed
pub mod Batch
pub mod Stops
pub mod Orderly
pub mod BatchOnce
pub mod Served
mod Tests
mod BatchTests
