-- ===== src/Sanitize/Text.antt =====
-- The functions of crates/app/src/sanitize.rs on texts. A text is the list of its characters, each
-- its scalar value; the converter of the crate html2text is an argument.
use eas_mail_mcp.Base.{
  ℕ, ◌==◌, leb, ltb, Bool, true, false, ◌&&◌, ◌||◌, not, Option, none, some, List, [], ◌∷◌, ascii,
  to_ascii_lowercase, length, take, if◌then◌else◌,
}
use eas_mail_mcp.Policy.Evaluate.{starts_with}

abbrev pub Chars : Type 0
Chars = List ℕ

-- `char::is_control`
abbrev pub is_control : ℕ → Bool
is_control c = leb c 31 || (leb 127 c && leb c 159)

abbrev pub map_chars : (ℕ → ℕ) → Chars → Chars
map_chars f [] = []
map_chars f (c ∷ cs) = f c ∷ map_chars f cs

abbrev pub filter_chars : (ℕ → Bool) → Chars → Chars
filter_chars holds [] = []
filter_chars holds (c ∷ cs) = let rest = filter_chars holds cs in if holds c then c ∷ rest else rest

-- `str::contains`
abbrev pub contains : Chars → Chars → Bool
contains [] part = starts_with [] part
contains (c ∷ cs) part = starts_with (c ∷ cs) part || contains cs part

unfoldable pub looks_like_html : Chars → Bool
looks_like_html value =
    let lower = map_chars to_ascii_lowercase value in
    contains lower (ascii "<html")
    || contains lower (ascii "<body")
    || contains lower (ascii "<div")
    || contains lower (ascii "<p")
    || contains lower (ascii "<br")

abbrev pub is_line_feed_next : Chars → Bool
is_line_feed_next [] = false
is_line_feed_next (c ∷ cs) = c == 10

-- `replace("\r\n", "\n")`: a carriage return before a line feed goes.
abbrev pub replace_crlf : Chars → Chars
replace_crlf [] = []
replace_crlf (c ∷ cs) =
    let rest = replace_crlf cs in if (c == 13) && is_line_feed_next cs then rest else c ∷ rest

-- `replace('\r', "\n")`
abbrev pub line_end : ℕ → ℕ
line_end c = if c == 13 then 10 else c

abbrev pub is_kept : ℕ → Bool
is_kept c = not (is_control c) || (c == 10) || (c == 13) || (c == 9)

unfoldable pub normalize_controls : Chars → Chars
normalize_controls value = map_chars line_end (replace_crlf (filter_chars is_kept value))

abbrev pub unwrap_or : Option Chars → Chars → Chars
unwrap_or none value = value
unwrap_or (some converted) value = converted

unfoldable pub plain_text : (Chars → Option Chars) → Chars → Chars
plain_text html2text value =
    let converted = if looks_like_html value then unwrap_or (html2text value) value else value in
    normalize_controls converted

-- The characters that `limit` leaves, and whether there are more.
unfoldable pub truncate : Chars → ℕ → Chars × Bool
truncate value limit = (take limit value, ltb limit (length value))

-- '/', '\', ':' and the control characters
abbrev pub is_unsafe : ℕ → Bool
is_unsafe c = (c == 47) || (c == 92) || (c == 58) || (c == 0) || is_control c

abbrev pub safe_char : ℕ → ℕ
safe_char c = if is_unsafe c then 95 else c

-- '.' and ' '
abbrev pub is_edge : ℕ → Bool
is_edge c = (c == 46) || (c == 32)

abbrev pub trim_start : Chars → Chars
trim_start [] = []
trim_start (c ∷ cs) = let rest = trim_start cs in if is_edge c then rest else c ∷ cs

abbrev pub is_empty : Chars → Bool
is_empty [] = true
is_empty (c ∷ cs) = false

abbrev pub trim_end : Chars → Chars
trim_end [] = []
trim_end (c ∷ cs) = let rest = trim_end cs in if is_empty rest && is_edge c then [] else c ∷ rest

unfoldable pub safe_filename : Chars → Chars
safe_filename value =
    let trimmed = trim_end (trim_start (map_chars safe_char value)) in
    if is_empty trimmed then ascii "attachment" else take 255 trimmed
