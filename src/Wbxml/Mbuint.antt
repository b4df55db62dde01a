-- ===== src/Wbxml/Mbuint.antt =====
-- Multi-byte unsigned integers (crates/eas/src/wbxml/codec.rs). A `usize` has 64 bits, so the
-- encoder makes ten rounds at most. `x & 0x7F` is `x % 128`, and `x & 0x80 == 0` is
-- `x / 128 % 2 == 0`.
pub mod RoundTrip
use eas_mail_mcp.Base.{
  ℕ, zero, suc, ◌+◌, ◌*◌, ◌/◌, ◌%◌, ◌^◌, List, [], ◌∷◌, ◌++◌, reverse, Bytes, ltb, ◌==◌,
  if◌then◌else◌, ok, err, ◌>>=◌, leb,
}
use eas_mail_mcp.EasError.{EasError, protocol, Result}

-- The groups of seven bits, lowest first: the rounds of the first loop.
low_groups : ℕ → ℕ → Bytes
low_groups zero value = []
low_groups (suc rounds) value =
    let rest = low_groups rounds (value / 128) in
    value % 128 ∷ (if value / 128 == 0 then [] else rest)

abbrev pub set_top_bit : ℕ → ℕ
set_top_bit b = if b / 128 % 2 == 0 then b + 128 else b

-- The second loop: the top bit on every byte but the last.
abbrev pub mark : Bytes → Bytes
mark [] = []
mark (b ∷ []) = b ∷ []
mark (b ∷ c ∷ bytes) = set_top_bit b ∷ mark (c ∷ bytes)

-- What `encode_mbuint` appends to its output.
unfoldable pub encode_mbuint : ℕ → Bytes
unfolding low_groups
encode_mbuint value = mark (reverse (low_groups 10 value))

-- `Reader::byte`. A reader is given by the bytes that it has not read, and returns what is left.
unfoldable pub byte : Bytes → Result (ℕ × Bytes)
byte [] = err (protocol "unexpected end of WBXML")
byte (b ∷ input) = ok (b, input)

-- `checked_shl(7)` checks only the distance, so the bits above 64 are lost; `checked_add` checks
-- the sum.
unfoldable pub mbuint_loop : ℕ → ℕ → Bytes → Result (ℕ × Bytes)
mbuint_loop zero value input = err (protocol "WBXML integer is too long")
mbuint_loop (suc rounds) value [] = err (protocol "unexpected end of WBXML")
mbuint_loop (suc rounds) value (b ∷ input) =
    let head = value * 128 % 2 ^ 64 in
    let value' = head + b % 128 in
    let more = mbuint_loop rounds value' input in
    if leb (2 ^ 64) value'
    then err (protocol "WBXML integer overflow")
    else if b / 128 % 2 == 0
    then ok (value', input)
    else more

-- `Reader::mbuint`
unfoldable pub mbuint : Bytes → Result (ℕ × Bytes)
unfolding mbuint_loop
mbuint input = mbuint_loop 10 0 input
