-- ===== src/Wbxml.antt =====
-- The MS-ASWBXML codec (crates/eas/src/wbxml).
pub mod Element
pub mod Text
pub mod CodePage
pub mod Mbuint
pub mod Utf8
pub mod Tokens
pub mod Encode
pub mod Decode
pub mod Steps
pub mod Termination
pub mod Canonical
pub mod Reads
pub mod Opened
pub mod Content
pub mod RoundTrip
pub mod Depth
pub mod Nesting
mod Tests
