-- ===== src/Wbxml/Utf8.antt =====
-- `String::from_utf8` of the standard library, as a test on bytes: the well-formed sequences of the
-- Unicode standard, read by a state machine. The decoder (crates/eas/src/wbxml/codec.rs) uses it.
use eas_mail_mcp.Base.{
  ℕ, zero, suc, Bool, true, false, ◌&&◌, [], ◌∷◌, Bytes, ltb, leb, ◌==◌, if◌then◌else◌,
}

-- What the next byte must be: the start of a character, or one of `more + 1` further bytes, the
-- first of them between `low` and `high`.
pub data Utf8State : Type 0 where
  start : Utf8State
  inside : ℕ → ℕ → ℕ → Utf8State
  bad : Utf8State

abbrev first_byte : ℕ → Utf8State
first_byte b =
    if ltb b 0x80
    then start
    else if ltb b 0xc2
    then bad
    else if ltb b 0xe0
    then inside 0x80 0xbf 0
    else if b == 0xe0
    then inside 0xa0 0xbf 1
    else if b == 0xed
    then inside 0x80 0x9f 1
    else if ltb b 0xf0
    then inside 0x80 0xbf 1
    else if b == 0xf0
    then inside 0x90 0xbf 2
    else if ltb b 0xf4
    then inside 0x80 0xbf 2
    else if b == 0xf4
    then inside 0x80 0x8f 2
    else bad

abbrev further_byte : ℕ → Utf8State
further_byte zero = start
further_byte (suc more) = inside 0x80 0xbf more

abbrev next_state : Utf8State → ℕ → Utf8State
next_state start b = first_byte b
next_state (inside low high more) b = if leb low b && leb b high then further_byte more else bad
next_state bad b = bad

abbrev is_start : Utf8State → Bool
is_start start = true
is_start (inside _ _ _) = false
is_start bad = false

valid_from : Utf8State → Bytes → Bool
valid_from state [] = is_start state
valid_from state (b ∷ bytes) = valid_from (next_state state b) bytes

unfoldable pub is_utf8 : Bytes → Bool
unfolding valid_from
is_utf8 bytes = valid_from start bytes
