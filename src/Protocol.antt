-- ===== src/Protocol.antt =====
-- Requests and responses of Exchange ActiveSync (crates/eas/src/protocol).
pub mod Tree
pub mod Availability
pub mod Slots
pub mod Answers
pub mod GlobalObjectId
pub mod Instances
pub mod Acknowledgement
mod Tests
