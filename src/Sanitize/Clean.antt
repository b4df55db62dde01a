-- ===== src/Sanitize/Clean.antt =====
-- What `plain_text` shows (crates/app/src/sanitize.rs).
use eas_mail_mcp.Base.{
  ℕ, ◌≡◌, refl, subst, ◌↔◌, if◌then◌else◌, Bool, true, false, Bool-cases, inl, inr, Option, [], ◌∷◌,
  ◌==◌, ◌&&◌, ◌||◌, not, All, arith,
}
use eas_mail_mcp.Sanitize.Text.{
  Chars, is_control, is_kept, filter_chars, is_line_feed_next, replace_crlf, line_end, map_chars,
  normalize_controls, looks_like_html, unwrap_or, plain_text,
}

-- No control character but a line feed and a tab.
abbrev pub is_shown : ℕ → Bool
is_shown c = not (is_control c) || (c == 10) || (c == 9)

abbrev Kept : Chars → Type 0
Kept = All (λ c. is_kept c ≡ true)

abbrev pub Shown : Chars → Type 0
Shown = All (λ c. is_shown c ≡ true)

filter_chars-Kept : (cs : Chars) → Kept (filter_chars is_kept cs)
filter_chars-Kept [] = tt
filter_chars-Kept (c ∷ cs) = elim (Bool-cases (is_kept c)) [
  | inl kept ↦ rw kept (kept, filter_chars-Kept cs)
  | inr gone ↦ rw gone (filter_chars-Kept cs)
]

replace_crlf-Kept : (cs : Chars) → Kept cs → Kept (replace_crlf cs)
replace_crlf-Kept [] kept = tt
replace_crlf-Kept (c ∷ cs) (here, rest) = elim (Bool-cases ((c == 13) && is_line_feed_next cs)) [
  | inl joined ↦ rw joined (replace_crlf-Kept cs rest)
  | inr alone ↦ rw alone (here, replace_crlf-Kept cs rest)
]

line_end_shown : (c : ℕ) → is_kept c ≡ true → is_shown (line_end c) ≡ true
line_end_shown c kept = elim (Bool-cases (c == 13)) [
  | inl return ↦ rw return refl
  | inr other ↦ ground (arith, kept, other)
]

line_ends-Shown : (cs : Chars) → Kept cs → Shown (map_chars line_end cs)
line_ends-Shown [] kept = tt
line_ends-Shown (c ∷ cs) (here, rest) = (line_end_shown c here, line_ends-Shown cs rest)

normalize_controls-Shown : (cs : Chars) → Shown (normalize_controls cs)
unfolding normalize_controls
normalize_controls-Shown cs = line_ends-Shown _ (replace_crlf-Kept _ (filter_chars-Kept cs))

shown_kept : (c : ℕ) → is_shown c ≡ true → is_kept c ≡ true
shown_kept c shown = ground (arith, shown)

shown_no_return : (c : ℕ) → is_shown c ≡ true → (c == 13) ≡ false
shown_no_return c shown = ground (arith, shown)

-- Each of the three passes leaves a text of shown characters alone.
filter_chars_fixed : (cs : Chars) → Shown cs → filter_chars is_kept cs ≡ cs
filter_chars_fixed [] shown = refl
filter_chars_fixed (c ∷ cs) (here, rest) = rw (shown_kept c here, filter_chars_fixed cs rest) refl

replace_crlf_fixed : (cs : Chars) → Shown cs → replace_crlf cs ≡ cs
replace_crlf_fixed [] shown = refl
replace_crlf_fixed (c ∷ cs) (here, rest) =
    rw (shown_no_return c here, replace_crlf_fixed cs rest) refl

line_ends_fixed : (cs : Chars) → Shown cs → map_chars line_end cs ≡ cs
line_ends_fixed [] shown = refl
line_ends_fixed (c ∷ cs) (here, rest) = rw (shown_no_return c here, line_ends_fixed cs rest) refl

normalize_controls_fixed : (cs : Chars) → Shown cs → normalize_controls cs ≡ cs
unfolding normalize_controls
normalize_controls_fixed cs shown =
    rw (filter_chars_fixed cs shown, replace_crlf_fixed cs shown, line_ends_fixed cs shown) refl

-- The text before its characters are looked at: what the converter makes of markup, or the text.
abbrev pub converted : (Chars → Option Chars) → Chars → Chars
converted html2text value =
    if looks_like_html value then unwrap_or (html2text value) value else value

-- Whatever the text and whatever the converter makes of markup, the text that is shown has no
-- control character but line feeds and tabs; and it is the text itself, or what the converter made
-- of it, as soon as that has none, and only then.
pub plain_text_lem :
    (html2text : Chars → Option Chars) (value : Chars)
    → Shown (plain_text html2text value)
      × (Shown (converted html2text value)
          ↔ (plain_text html2text value ≡ converted html2text value))
unfolding plain_text
plain_text_lem html2text value = (
  normalize_controls-Shown (converted html2text value),
  (
    normalize_controls_fixed (converted html2text value),
    λ same. subst Shown same (normalize_controls-Shown (converted html2text value)),
  ),
)
