-- ===== src/Wbxml/Tokens.antt =====
-- The global tokens and the limits (crates/eas/src/wbxml/codec.rs).
use eas_mail_mcp.Base.{ℕ, ◌*◌}

abbrev pub switch_page : ℕ
switch_page = 0x00

abbrev pub end_token : ℕ
end_token = 0x01

abbrev pub str_i : ℕ
str_i = 0x03

abbrev pub opaque_token : ℕ
opaque_token = 0xc3

abbrev pub max_document_bytes : ℕ
max_document_bytes = 36 * 1024 * 1024

abbrev pub max_depth : ℕ
max_depth = 128
