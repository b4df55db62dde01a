-- ===== src/Sanitize/Tests.antt =====
-- Concrete texts, and the theorems at them (crates/app/src/sanitize.rs).
use eas_mail_mcp.Base.{◌≤◌, ◌≡◌, ◌↔◌, refl, true, Option, none, [], ◌∷◌, ◌++◌, ascii, length}
use eas_mail_mcp.Sanitize.Text.{
  Chars, looks_like_html, plain_text, normalize_controls, truncate, safe_filename,
}
use eas_mail_mcp.Sanitize.Filename.{IsSafe, StartsWell, safe_filename_lem}
use eas_mail_mcp.Sanitize.Mailbox.{trim, is_whitespace, mailbox, mailbox_lem}
use eas_mail_mcp.Sanitize.Clean.{Shown, converted, plain_text_lem}

climbing_name : safe_filename (ascii "../../etc/passwd") ≡ ascii "_.._etc_passwd"
unfolding safe_filename
climbing_name = refl

-- Only the name that is left empty is replaced.
dots_only : safe_filename (ascii " ... ") ≡ ascii "attachment"
unfolding safe_filename
dots_only = refl

shortened : truncate (ascii "abc") 2 ≡ (ascii "ab", true)
unfolding truncate
shortened = refl

-- A converter that gives up, and a line of markup that ends as on Windows, with a bell.
abbrev gives_up : Chars → Option Chars
gives_up value = none

abbrev markup : Chars
markup = ascii "<P>x" ++ (7 ∷ 13 ∷ 10 ∷ [])

markup_shown : plain_text gives_up markup ≡ ascii "<P>x" ++ (10 ∷ [])
unfolding plain_text looks_like_html normalize_controls
markup_shown = refl

safe_filename_example :
    IsSafe (safe_filename (ascii "../../etc/passwd"))
    × StartsWell (safe_filename (ascii "../../etc/passwd"))
    × (length (safe_filename (ascii "../../etc/passwd")) ≤ 255)
safe_filename_example = safe_filename_lem (ascii "../../etc/passwd")

plain_text_example :
    Shown (plain_text gives_up markup)
    × (Shown (converted gives_up markup) ↔ (plain_text gives_up markup ≡ converted gives_up markup))
plain_text_example = plain_text_lem gives_up markup

bare_mailbox : mailbox (ascii " ann@example.org ") ≡ ascii "ann@example.org"
unfolding mailbox is_whitespace
bare_mailbox = refl

mailbox_example : mailbox (ascii " A <b> " ++ (60 ∷ ascii "ann" ++ (62 ∷ []))) ≡ trim (ascii "ann")
mailbox_example = mailbox_lem (ascii " A <b> ") (ascii "ann") (refl, (refl, (refl, tt)))
