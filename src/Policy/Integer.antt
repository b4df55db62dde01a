-- ===== src/Policy/Integer.antt =====
-- The integers of type `i64` and their reading from a policy's value
-- (crates/eas/src/protocol/policy.rs); a policy is a map from names to values.
use eas_mail_mcp.Base.{
  ℕ, zero, suc, ◌+◌, ◌-◌, ◌*◌, ◌^◌, Bool, true, false, ◌&&◌, ◌||◌, not, Option, none, some, List,
  [], ◌∷◌, ◌++◌, Bytes, ascii, bytes_eq, ltb, leb, ◌==◌, if◌then◌else◌,
}

pub data ℤ : Type 0 where
  pos negsuc : ℕ → ℤ

abbrev pub eqℤ : ℤ → ℤ → Bool
eqℤ (ℤ.pos a) (ℤ.pos b) = a == b
eqℤ (ℤ.pos a) (ℤ.negsuc b) = false
eqℤ (ℤ.negsuc a) (ℤ.pos b) = false
eqℤ (ℤ.negsuc a) (ℤ.negsuc b) = a == b

abbrev pub ltℤ : ℤ → ℤ → Bool
ltℤ (ℤ.pos a) (ℤ.pos b) = ltb a b
ltℤ (ℤ.pos a) (ℤ.negsuc b) = false
ltℤ (ℤ.negsuc a) (ℤ.pos b) = true
ltℤ (ℤ.negsuc a) (ℤ.negsuc b) = ltb b a

-- `<i64 as FromStr>::from_str`: a sign, or none, and at least one decimal digit.
abbrev pub digits : Bytes → ℕ → Option ℕ
digits [] value = some value
digits (b ∷ bs) value =
    let rest = digits bs (10 * value + (b - b'0')) in
    if leb b'0' b && leb b b'9' then rest else none

abbrev pub magnitude : Bytes → Option ℕ
magnitude [] = none
magnitude (b ∷ bs) = digits (b ∷ bs) 0

abbrev pub nonnegative : Option ℕ → Option ℤ
nonnegative none = none
nonnegative (some n) = if ltb n (2 ^ 63) then some (ℤ.pos n) else none

abbrev pub negative : Option ℕ → Option ℤ
negative none = none
negative (some zero) = some (ℤ.pos 0)
negative (some (suc n)) = if ltb n (2 ^ 63) then some (ℤ.negsuc n) else none

abbrev pub parse_i64 : Bytes → Option ℤ
parse_i64 [] = none
parse_i64 (b ∷ bs) =
    if b == b'-'
    then negative (magnitude bs)
    else if b == b'+'
    then nonnegative (magnitude bs)
    else nonnegative (magnitude (b ∷ bs))

abbrev pub Policy : Type 0
Policy = List (Bytes × Bytes)

-- `policy.get(name)`
abbrev pub get : Policy → Bytes → Option Bytes
get [] name = none
get ((key, value) ∷ policy) name = if bytes_eq key name then some value else get policy name

abbrev pub contains_key : Policy → Bytes → Bool
contains_key policy name = elim (get policy name) [ none ↦ false | some raw ↦ true ]

abbrev pub mem : List ℤ → ℤ → Bool
mem [] value = false
mem (v ∷ values) value = eqℤ v value || mem values value

abbrev pub invalid : Bytes → Bytes
invalid name = ascii "invalid policy value: " ++ name

-- How a call of `integer` reads its field.
pub record Rule : Type 0 where
  pub default : ℤ
  pub allowed : Option (List ℤ)
  pub signed : Bool
  pub empty_allowed : Bool

abbrev pub refused : Rule → ℤ → Bool
refused rule value =
    (not rule.signed && ltℤ value (ℤ.pos 0))
    || elim rule.allowed [ none ↦ false | some values ↦ not (mem values value) ]

abbrev pub integer_parsed : Bytes → Rule → List Bytes → Option ℤ → ℤ × List Bytes
integer_parsed name rule reasons none = (rule.default, reasons ++ (invalid name ∷ []))
integer_parsed name rule reasons (some value) =
    if refused rule value then (rule.default, reasons ++ (invalid name ∷ [])) else (value, reasons)

abbrev pub integer_raw : Bytes → Rule → List Bytes → Option Bytes → ℤ × List Bytes
integer_raw name rule reasons none = (rule.default, reasons)
integer_raw name rule reasons (some []) =
    (rule.default, (if rule.empty_allowed then reasons else reasons ++ (invalid name ∷ [])))
integer_raw name rule reasons (some (b ∷ bs)) =
    integer_parsed name rule reasons (parse_i64 (b ∷ bs))

-- `integer`: the value and the reasons, `reasons` being what was found before.
unfoldable pub integer : Policy → Bytes → Rule → List Bytes → ℤ × List Bytes
integer policy name rule reasons = integer_raw name rule reasons (get policy name)
