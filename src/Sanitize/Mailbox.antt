-- ===== src/Sanitize/Mailbox.antt =====
-- The address of a mailbox (`mailbox` of crates/app/src/sanitize.rs).
use eas_mail_mcp.Base.{
  ℕ, ◌==◌, leb, ◌≡◌, refl, ap, subst, ◌∙◌, Bool, true, false, ◌&&◌, ◌||◌, Bool-cases, inl, inr,
  Option, none, some, [], ◌∷◌, ◌++◌, append_assoc, All, if◌then◌else◌,
}
use eas_mail_mcp.Sanitize.Text.{Chars, is_empty}

-- `char::is_whitespace`
unfoldable pub is_whitespace : ℕ → Bool
is_whitespace c =
    (leb 9 c && leb c 13)
    || (c == 32)
    || (c == 133)
    || (c == 160)
    || (c == 5760)
    || (leb 8192 c && leb c 8202)
    || (c == 8232)
    || (c == 8233)
    || (c == 8239)
    || (c == 8287)
    || (c == 12288)

abbrev pub strip_start : Chars → Chars
strip_start [] = []
strip_start (c ∷ cs) = let rest = strip_start cs in if is_whitespace c then rest else c ∷ cs

abbrev pub strip_end : Chars → Chars
strip_end [] = []
strip_end (c ∷ cs) =
    let rest = strip_end cs in if is_empty rest && is_whitespace c then [] else c ∷ rest

-- `str::trim`
abbrev pub trim : Chars → Chars
trim value = strip_end (strip_start value)

-- What follows the last '<', which `rfind` finds.
abbrev pub after_last_open : Chars → Option Chars
after_last_open [] = none
after_last_open (c ∷ cs) = elim (after_last_open cs) [
  | some after ↦ some after
  | none ↦ if c == 60 then some cs else none
]

-- `ends_with('>')`
abbrev pub ends_with_close : Chars → Bool
ends_with_close [] = false
ends_with_close (c ∷ cs) = let rest = ends_with_close cs in if is_empty cs then c == 62 else rest

abbrev pub drop_last : Chars → Chars
drop_last [] = []
drop_last (c ∷ cs) = let rest = drop_last cs in if is_empty cs then [] else c ∷ rest

-- The slice from behind the last '<' up to the final '>' is in bounds, as '<' stands before it.
abbrev pub address_in : Chars → Chars
address_in trimmed = elim (after_last_open trimmed) [
  | none ↦ trimmed
  | some after ↦ if ends_with_close trimmed then trim (drop_last after) else trimmed
]

unfoldable pub mailbox : Chars → Chars
mailbox value = address_in (trim value)

is_empty-append : (xs : Chars) (x : ℕ) → is_empty (xs ++ (x ∷ [])) ≡ false
is_empty-append [] x = refl
is_empty-append (c ∷ xs) x = refl

strip_start-append :
    (before after : Chars)
    → strip_start (before ++ (60 ∷ after)) ≡ strip_start before ++ (60 ∷ after)
unfolding is_whitespace
strip_start-append [] after = refl
strip_start-append (c ∷ before) after = elim (Bool-cases (is_whitespace c)) [
  | inl white ↦ rw (white, strip_start-append before after) refl
  | inr kept ↦ rw kept refl
]

strip_end-append : (xs : Chars) → strip_end (xs ++ (62 ∷ [])) ≡ xs ++ (62 ∷ [])
unfolding is_whitespace
strip_end-append [] = refl
strip_end-append (c ∷ xs) = rw (strip_end-append xs, is_empty-append xs 62) refl

ends_with_close-append : (xs : Chars) → ends_with_close (xs ++ (62 ∷ [])) ≡ true
ends_with_close-append [] = refl
ends_with_close-append (c ∷ xs) = rw (is_empty-append xs 62, ends_with_close-append xs) refl

drop_last-append : (xs : Chars) (x : ℕ) → drop_last (xs ++ (x ∷ [])) ≡ xs
drop_last-append [] x = refl
drop_last-append (c ∷ xs) x = rw (is_empty-append xs x, drop_last-append xs x) refl

abbrev pub NotOpen : Chars → Type 0
NotOpen = All (λ c. (c == 60) ≡ false)

no_open : (address : Chars) → NotOpen address → after_last_open (address ++ (62 ∷ [])) ≡ none
no_open [] free = refl
no_open (c ∷ address) (here, rest) = rw (no_open address rest, here) refl

last_open :
    (before address : Chars)
    → NotOpen address
    → after_last_open (before ++ (60 ∷ address ++ (62 ∷ []))) ≡ some (address ++ (62 ∷ []))
last_open [] address free = rw (no_open address free) refl
last_open (c ∷ before) address free = rw (last_open before address free) refl

trim_written :
    (before address : Chars)
    → trim (before ++ (60 ∷ address ++ (62 ∷ [])))
      ≡ strip_start before ++ (60 ∷ address ++ (62 ∷ []))
trim_written before address =
    ap strip_end (strip_start-append before (address ++ (62 ∷ [])))
    ∙ subst (λ t. strip_end t ≡ t) (append_assoc (strip_start before) (60 ∷ address) (62 ∷ []))
        (strip_end-append (strip_start before ++ (60 ∷ address)))

-- '>' is the last character here too.
closed : (before address : Chars) → ends_with_close (before ++ (60 ∷ address ++ (62 ∷ []))) ≡ true
closed before address =
    subst (λ t. ends_with_close t ≡ true) (append_assoc before (60 ∷ address) (62 ∷ []))
      (ends_with_close-append (before ++ (60 ∷ address)))

-- A mailbox that is written as a name and an address in angle brackets, the address without an
-- opening one, is the address without the white space around it, whatever the name has in it.
pub mailbox_lem :
    (name address : Chars)
    → NotOpen address
    → mailbox (name ++ (60 ∷ address ++ (62 ∷ []))) ≡ trim address
unfolding mailbox
mailbox_lem name address free =
    let before = strip_start name in
    ap address_in (trim_written name address)
    ∙ rw
        (
          address_in,
          last_open before address free,
          closed before address,
          drop_last-append address 62,
        )
        refl
