-- ===== src/Sanitize/Filename.antt =====
-- A name that `safe_filename` gives is one file in its directory (crates/app/src/sanitize.rs).
use eas_mail_mcp.Base.{
  ℕ, zero, suc, ◌≤◌, ◌≡◌, refl, Bool, true, false, ◌&&◌, ◌||◌, ◌==◌, not, sym, subst, Bool-cases,
  inl, inr, [], ◌∷◌, ascii, length, take, All, arith,
}
use eas_mail_mcp.Sanitize.Text.{
  Chars, is_control, is_unsafe, safe_char, is_edge, map_chars, trim_start, trim_end, is_empty,
  safe_filename,
}

-- A character that separates no directories, drives or streams, and controls nothing.
abbrev pub is_harmless : ℕ → Bool
is_harmless c = not (c == 47) && not (c == 92) && not (c == 58) && not (is_control c)

abbrev pub IsSafe : Chars → Type 0
IsSafe = All (λ c. is_harmless c ≡ true)

-- A first character that is there and is neither a dot nor a space.
abbrev pub StartsWell : Chars → Type 0
StartsWell [] = ⊥
StartsWell (c ∷ cs) = ((c == 46) || (c == 32)) ≡ false

safe_char_lem : (c : ℕ) → is_harmless (safe_char c) ≡ true
safe_char_lem c = elim (Bool-cases (is_unsafe c)) [
  | inl unsafe ↦ rw unsafe refl
  | inr safe ↦ rw safe (ground (arith, safe))
]

map_chars-IsSafe : (cs : Chars) → IsSafe (map_chars safe_char cs)
map_chars-IsSafe [] = tt
map_chars-IsSafe (c ∷ cs) = (safe_char_lem c, map_chars-IsSafe cs)

trim_start-IsSafe : (cs : Chars) → IsSafe cs → IsSafe (trim_start cs)
trim_start-IsSafe [] safe = tt
trim_start-IsSafe (c ∷ cs) (here, rest) = elim (Bool-cases (is_edge c)) [
  | inl edge ↦ rw edge (trim_start-IsSafe cs rest)
  | inr kept ↦ rw kept (here, rest)
]

trim_end-IsSafe : (cs : Chars) → IsSafe cs → IsSafe (trim_end cs)
trim_end-IsSafe [] safe = tt
trim_end-IsSafe (c ∷ cs) (here, rest) = elim (Bool-cases (is_empty (trim_end cs) && is_edge c)) [
  | inl last ↦ rw last tt
  | inr kept ↦ rw kept (here, trim_end-IsSafe cs rest)
]

take-IsSafe : (n : ℕ) (cs : Chars) → IsSafe cs → IsSafe (take n cs)
take-IsSafe zero cs safe = tt
take-IsSafe (suc n) [] safe = tt
take-IsSafe (suc n) (c ∷ cs) (here, rest) = (here, take-IsSafe n cs rest)

length-take : (n : ℕ) (cs : Chars) → length (take n cs) ≤ n
length-take zero cs = omega arith
length-take (suc n) [] = omega arith
length-take (suc n) (c ∷ cs) = omega (arith, length-take n cs)

trim_start_edge : (c : ℕ) (cs : Chars) → is_edge c ≡ true → trim_start (c ∷ cs) ≡ trim_start cs
trim_start_edge c cs edge = rw edge refl

trim_start_kept : (c : ℕ) (cs : Chars) → is_edge c ≡ false → trim_start (c ∷ cs) ≡ c ∷ cs
trim_start_kept c cs kept = rw kept refl

trim_end_kept : (c : ℕ) (cs : Chars) → is_edge c ≡ false → trim_end (c ∷ cs) ≡ c ∷ trim_end cs
trim_end_kept c cs kept = elim (Bool-cases (is_empty (trim_end cs))) [
  | inl empty ↦ rw (empty, kept) refl
  | inr more ↦ rw more refl
]

-- What is left at the start is no edge, or nothing is left.
trim_start-StartsWell :
    (cs : Chars)
    → is_empty (trim_end (trim_start cs)) ≡ false
    → StartsWell (take 255 (trim_end (trim_start cs)))
trim_start-StartsWell [] left = ground (arith, left)
trim_start-StartsWell (c ∷ cs) left = elim (Bool-cases (is_edge c)) [
  | inl edge ↦
      let shorter = trim_start_edge c cs edge in
      let still = subst (λ t. is_empty (trim_end t) ≡ false) shorter left in
      subst (λ t. StartsWell (take 255 (trim_end t))) (sym shorter) (trim_start-StartsWell cs still)
  | inr kept ↦
      subst (λ t. StartsWell (take 255 (trim_end t))) (sym (trim_start_kept c cs kept))
        (subst (λ t. StartsWell (take 255 t)) (sym (trim_end_kept c cs kept)) kept)
]

-- Any name becomes one of at most 255 characters, none of them a separator or a control character,
-- whose first is there and is neither a dot nor a space.
pub safe_filename_lem :
    (value : Chars)
    → IsSafe (safe_filename value)
      × StartsWell (safe_filename value)
      × (length (safe_filename value) ≤ 255)
unfolding safe_filename
safe_filename_lem value =
    elim (Bool-cases (is_empty (trim_end (trim_start (map_chars safe_char value))))) [
      | inl empty ↦ rw empty (map_chars-IsSafe (ascii "attachment"), refl, omega arith)
      | inr left ↦
          let safe =
            trim_end-IsSafe _
              (trim_start-IsSafe (map_chars safe_char value) (map_chars-IsSafe value)) in
          rw left (
            take-IsSafe 255 _ safe,
            trim_start-StartsWell (map_chars safe_char value) left,
            length-take 255 (trim_end (trim_start (map_chars safe_char value))),
          )
    ]
