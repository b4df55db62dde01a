-- ===== src/Sanitize.antt =====
-- Texts from a server before they are shown or stored (crates/app/src/sanitize.rs).
pub mod Text
pub mod Filename
pub mod Clean
pub mod Mailbox
mod Tests
