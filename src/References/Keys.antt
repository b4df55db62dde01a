-- ===== src/References/Keys.antt =====
-- The identifiers in the map of cursors and in their order (crates/app/src/references.rs).
use eas_mail_mcp.Base.{
  ℕ, ◌≤◌, ◌≡◌, refl, ap, ◌∙◌, sym, subst, true, false, ◌&&◌, ◌||◌, not, Bool-cases, inl, inr, List,
  [], ◌∷◌, ◌++◌, Bytes, bytes_eq, bytes_eq→eq, bytes_eq_refl, arith, length,
}
use eas_mail_mcp.References.Cursors.{
  Cursors, has_id, contains_id, remove_cursor, retain_live, retain_known, retain_other,
}

-- No identifier stands twice in the order.
abbrev pub Distinct : List Bytes → Type 0
Distinct [] = Unit
Distinct (x ∷ xs) = (has_id xs x ≡ false) × Distinct xs

pub bytes_eq_sym : (a b : Bytes) → bytes_eq a b ≡ bytes_eq b a
bytes_eq_sym a b = elim (Bool-cases (bytes_eq a b)) [
  | inl e ↦ subst (λ c. bytes_eq a c ≡ bytes_eq c a) (bytes_eq→eq a b e) refl
  | inr e ↦ elim (Bool-cases (bytes_eq b a)) [
    | inl f ↦ subst (λ c. bytes_eq c b ≡ bytes_eq b c) (bytes_eq→eq b a f) refl
    | inr f ↦ e ∙ sym f
  ]
]

-- Equal identifiers are in a list together.
pub has_id-eq : (xs : List Bytes) (a b : Bytes) → bytes_eq a b ≡ true → has_id xs a ≡ has_id xs b
has_id-eq xs a b e = ap (has_id xs) (bytes_eq→eq a b e)

pub has_id-append :
    (xs : List Bytes) (a b : Bytes) → has_id (xs ++ (a ∷ [])) b ≡ (has_id xs b || bytes_eq a b)
has_id-append [] a b = ground arith
has_id-append (x ∷ xs) a b = ground (arith, has_id-append xs a b)

pub Distinct-append :
    (xs : List Bytes) (a : Bytes) → Distinct xs → has_id xs a ≡ false → Distinct (xs ++ (a ∷ []))
Distinct-append [] a d h = (refl, tt)
Distinct-append (x ∷ xs) a (e, d) h =
    (ground (arith, has_id-append xs a x, bytes_eq_sym a x), Distinct-append xs a d (ground arith))

pub has_id-retain_other :
    (a : Bytes) (xs : List Bytes) (b : Bytes)
    → has_id (retain_other a xs) b ≡ (has_id xs b && not (bytes_eq a b))
has_id-retain_other a [] b = refl
has_id-retain_other a (x ∷ xs) b = elim (Bool-cases (bytes_eq x b)) [
  | inl e ↦
      subst (λ c. has_id (retain_other a (x ∷ xs)) c ≡ (has_id (x ∷ xs) c && not (bytes_eq a c)))
        (bytes_eq→eq x b e)
        (ground (arith, has_id-retain_other a xs x, bytes_eq_refl x, bytes_eq_sym a x))
  | inr e ↦ ground (arith, has_id-retain_other a xs b, e)
]

pub Distinct-retain_other :
    (a : Bytes) (xs : List Bytes) → Distinct xs → Distinct (retain_other a xs)
Distinct-retain_other a [] d = tt
Distinct-retain_other a (x ∷ xs) (e, d) =
    ground (arith, has_id-retain_other a xs x, Distinct-retain_other a xs d)

pub length-retain_other : (a : Bytes) (xs : List Bytes) → length (retain_other a xs) ≤ length xs
length-retain_other a [] = omega arith
length-retain_other a (x ∷ xs) = ground (arith, length-retain_other a xs)

module _ {Item Notes : Type 0} where
  pub contains_id-remove :
      (cursors : Cursors Item Notes) (a b : Bytes)
      → contains_id (remove_cursor cursors a) b ≡ (contains_id cursors b && not (bytes_eq a b))
  contains_id-remove [] a b = refl
  contains_id-remove ((key, entry) ∷ cursors) a b = elim (Bool-cases (bytes_eq key b)) [
    | inl e ↦
        subst
          (λ c.
            contains_id (remove_cursor ((key, entry) ∷ cursors) a) c
            ≡ (contains_id ((key, entry) ∷ cursors) c && not (bytes_eq a c)))
          (bytes_eq→eq key b e)
          (ground (arith, contains_id-remove cursors a key, bytes_eq_refl key, bytes_eq_sym a key))
    | inr e ↦ ground (arith, contains_id-remove cursors a b, e)
  ]

  pub contains_id-retain_live :
      (now : ℕ) (cursors : Cursors Item Notes) (a : Bytes)
      → contains_id (retain_live now cursors) a ≡ true
      → contains_id cursors a ≡ true
  contains_id-retain_live now [] a h = h
  contains_id-retain_live now ((key, entry) ∷ cursors) a h =
      ground (arith, contains_id-retain_live now cursors a)

  pub has_id-retain_known :
      (cursors : Cursors Item Notes) (xs : List Bytes) (a : Bytes)
      → has_id (retain_known cursors xs) a ≡ (has_id xs a && contains_id cursors a)
  has_id-retain_known cursors [] a = refl
  has_id-retain_known cursors (x ∷ xs) a = elim (Bool-cases (bytes_eq x a)) [
    | inl e ↦
        subst
          (λ b.
            has_id (retain_known cursors (x ∷ xs)) b ≡ (has_id (x ∷ xs) b && contains_id cursors b))
          (bytes_eq→eq x a e) (ground (arith, has_id-retain_known cursors xs x, bytes_eq_refl x))
    | inr e ↦ ground (arith, has_id-retain_known cursors xs a, e)
  ]

  pub Distinct-retain_known :
      (cursors : Cursors Item Notes) (xs : List Bytes)
      → Distinct xs
      → Distinct (retain_known cursors xs)
  Distinct-retain_known cursors [] d = tt
  Distinct-retain_known cursors (x ∷ xs) (e, d) =
      ground (arith, has_id-retain_known cursors xs x, Distinct-retain_known cursors xs d)

  pub length-retain_known :
      (cursors : Cursors Item Notes) (xs : List Bytes)
      → length (retain_known cursors xs) ≤ length xs
  length-retain_known cursors [] = omega arith
  length-retain_known cursors (x ∷ xs) = ground (arith, length-retain_known cursors xs)
