-- ===== src/Policy/Checks.antt =====
-- What it means that a check adds no reason (crates/eas/src/protocol/policy.rs).
use eas_mail_mcp.Base.{
  ◌≡◌, refl, ap, ◌∙◌, sym, subst, Bool, true, false, ◌&&◌, ◌||◌, inl, inr, Bool-cases, none, some,
  Option-cases, List, [], ◌∷◌, ◌++◌, Bytes, ascii, bytes_eq, bytes_eq→eq, arith, if◌then◌else◌,
}
use eas_mail_mcp.Policy.Integer.{ℤ, eqℤ, ltℤ, Policy, get, contains_key, integer}
use eas_mail_mcp.Policy.Fields.{known_fields}
use eas_mail_mcp.Policy.Evaluate.{
  has_name, unknown_in, boolean_rule, Booleans, lookup, lookup_or, is_zero, boolean_values_of,
  check_strict, check_restricted, check_bluetooth, check_applications, check_numeric,
  validate_body_limit, loose_rule, up_to_two,
}
use eas_mail_mcp.Policy.Readings.{Reading, push_nonempty, integer_clean}

-- The name is the first of a pair in the list.
abbrev pub has_first : List (Bytes × Bytes) → Bytes → Bool
has_first [] name = false
has_first ((n, description) ∷ rest) name = bytes_eq n name || has_first rest name

module _ {A : Type 0} where
  if_true : (b : Bool) (x y : List A) → b ≡ true → (if b then x else y) ≡ x
  if_true b x y h = rw (h) refl

  if_push :
      (b : Bool) (xs : List A) (x : A)
      → (if b then xs ++ (x ∷ []) else xs) ≡ []
      → (b ≡ false) × (xs ≡ [])
  if_push true xs x h = push_nonempty xs x h _
  if_push false xs x h = (refl, h)

pub unknown_in_clean :
    (policy : Policy)
    → unknown_in policy ≡ []
    → (name : Bytes) → contains_key policy name ≡ true
    → has_name known_fields name ≡ true
unfolding unknown_in
unknown_in_clean [] h name k = ground arith
unknown_in_clean ((key, value) ∷ policy) h name k = elim (Bool-cases (has_name known_fields key)) [
  | inr unknown ↦ ground (arith, unknown)
  | inl known ↦ elim (Bool-cases (bytes_eq key name)) [
    | inl e ↦ subst (λ n. has_name known_fields n ≡ true) (bytes_eq→eq key name e) known
    | inr e ↦ unknown_in_clean policy (ground (arith, known)) name (ground (arith, e))
  ]
]

pub check_strict_clean :
    (booleans : Booleans) (list : List (Bytes × Bytes)) (reasons : List Bytes)
    → check_strict booleans list reasons ≡ []
    → (reasons ≡ [])
      × ((name : Bytes)
          → has_first list name ≡ true
          → eqℤ (lookup_or (ℤ.pos 0) booleans name) (ℤ.pos 0) ≡ true)
unfolding check_strict
check_strict_clean booleans [] reasons h = (h, λ name k. ground arith)
check_strict_clean booleans ((first, description) ∷ list) reasons h =
    let (here, later) = check_strict_clean booleans list _ h in
    let (zero_here, before) = if_push _ reasons _ here in
    (
      before,
      λ name k. elim (Bool-cases (bytes_eq first name)) [
        | inl e ↦
            subst (λ n. eqℤ (lookup_or (ℤ.pos 0) booleans n) (ℤ.pos 0) ≡ true)
              (bytes_eq→eq first name e) (ground (arith, zero_here))
        | inr e ↦ later name (ground (arith, e))
      ],
    )

pub check_restricted_clean :
    (policy : Policy) (booleans : Booleans) (list : List (Bytes × Bytes)) (reasons : List Bytes)
    → check_restricted policy booleans list reasons ≡ []
    → (reasons ≡ [])
      × ((name : Bytes)
          → has_first list name ≡ true
          → (contains_key policy name && is_zero (lookup booleans name)) ≡ false)
unfolding check_restricted
check_restricted_clean policy booleans [] reasons h = (h, λ name k. ground arith)
check_restricted_clean policy booleans ((first, description) ∷ list) reasons h =
    let (here, later) = check_restricted_clean policy booleans list _ h in
    let (not_here, before) = if_push _ reasons _ here in
    (
      before,
      λ name k. elim (Bool-cases (bytes_eq first name)) [
        | inl e ↦
            subst (λ n. (contains_key policy n && is_zero (lookup booleans n)) ≡ false)
              (bytes_eq→eq first name e) not_here
        | inr e ↦ later name (ground (arith, e))
      ],
    )

pub check_applications_clean :
    (policy : Policy) (list : List (Bytes × Bytes)) (reasons : List Bytes)
    → check_applications policy list reasons ≡ []
    → (reasons ≡ [])
      × ((name : Bytes)
          → has_first list name ≡ true
          → (value : ℤ) × Reading policy name (loose_rule (ℤ.pos 0) none) value
            × (ltℤ (ℤ.pos 0) value ≡ false))
unfolding check_applications
check_applications_clean policy [] reasons h = (h, λ name k. ground arith)
check_applications_clean policy ((first, description) ∷ list) reasons h =
    let (here, later) = check_applications_clean policy list _ h in
    let (none_here, before) = if_push _ _ _ here in
    let (empty, reading) = integer_clean policy first (loose_rule (ℤ.pos 0) none) reasons before in
    (
      empty,
      λ name k. elim (Bool-cases (bytes_eq first name)) [
        | inl e ↦
            subst
              (λ n.
                (value : ℤ) × Reading policy n (loose_rule (ℤ.pos 0) none) value
                × (ltℤ (ℤ.pos 0) value ≡ false))
              (bytes_eq→eq first name e) (_, reading, none_here)
        | inr e ↦ later name (ground (arith, e))
      ],
    )

pub check_bluetooth_clean :
    (policy : Policy) (reasons : List Bytes)
    → check_bluetooth policy reasons ≡ []
    → (reasons ≡ [])
      × ((value : ℤ) × Reading policy
            (ascii "AllowBluetooth")
            (loose_rule (ℤ.pos 2) up_to_two)
            value
          × (ltℤ value (ℤ.pos 2) ≡ false))
unfolding check_bluetooth
check_bluetooth_clean policy reasons h = elim (Option-cases (get policy (ascii "AllowBluetooth"))) [
  | inl absent ↦ (ground (arith, absent), (ℤ.pos 2, inl (absent, refl), refl))
  | inr (raw, present) ↦
      let (none_here, before) = if_push _ _ _ (
        sym (
          if_true (contains_key policy (ascii "AllowBluetooth")) _ _
            (ap (λ o. elim o as (λ p. Bool) [ none ↦ false | some r ↦ true ]) present))
        ∙ h) in
      let (empty, reading) =
        integer_clean policy (ascii "AllowBluetooth") (loose_rule (ℤ.pos 2) up_to_two) reasons
          before in
      (empty, (_, reading, none_here))
]

pub check_numeric_clean :
    (policy : Policy) (names : List Bytes) (reasons : List Bytes)
    → check_numeric policy names reasons ≡ []
    → reasons ≡ []
unfolding check_numeric
check_numeric_clean policy [] reasons h = h
check_numeric_clean policy (name ∷ names) reasons h =
    (integer_clean policy name (loose_rule (ℤ.pos 0) none) reasons
      (check_numeric_clean policy names _ h)).0

pub validate_body_limit_clean :
    (name : Bytes) (value : ℤ) (reasons : List Bytes)
    → validate_body_limit name value reasons ≡ []
    → (ltℤ value (ℤ.negsuc 0) ≡ false) × (reasons ≡ [])
unfolding validate_body_limit
validate_body_limit_clean name value reasons h = if_push _ reasons _ h

pub clash : (b : Bool) → b ≡ false → b ≡ true → (P : Type 0) → P
clash b f t P = ground arith

-- The values of the boolean fields that the policy has are read.
abbrev pub BooleansRead : Policy → List Bytes → Booleans → Type 0
BooleansRead policy names booleans =
    (name : Bytes)
    → has_name names name ≡ true
    → contains_key policy name ≡ true
    → (value : ℤ) × (lookup booleans name ≡ some value)
      × Reading policy name (boolean_rule name) value

abbrev pub Cleaned : Policy → List Bytes → List Bytes → Booleans × List Bytes → Type 0
Cleaned policy names reasons (booleans, found) =
    found ≡ [] → (reasons ≡ []) × BooleansRead policy names booleans

boolean_values_of_absent :
    (policy : Policy) (first : Bytes) (names reasons : List Bytes)
    → contains_key policy first ≡ false
    → boolean_values_of policy (first ∷ names) reasons ≡ boolean_values_of policy names reasons
unfolding boolean_values_of
boolean_values_of_absent policy first names reasons h = rw (h) refl

-- What the loop returns for a field that the policy has.
abbrev with_first : Policy → Bytes → List Bytes → List Bytes → Booleans × List Bytes
with_first policy first names reasons =
    let read = integer policy first (boolean_rule first) reasons in
    let rest = boolean_values_of policy names read.1 in ((first, read.0) ∷ rest.0, rest.1)

boolean_values_of_present :
    (policy : Policy) (first : Bytes) (names reasons : List Bytes)
    → contains_key policy first ≡ true
    → boolean_values_of policy (first ∷ names) reasons ≡ with_first policy first names reasons
unfolding boolean_values_of
boolean_values_of_present policy first names reasons h = rw (h) refl

pub boolean_values_of_clean :
    (policy : Policy) (names reasons : List Bytes)
    → Cleaned policy names reasons (boolean_values_of policy names reasons)
boolean_values_of_clean policy [] reasons =
    unfold boolean_values_of in λ h. (h, λ name m k. ground arith)
boolean_values_of_clean policy (first ∷ names) reasons =
    elim (Bool-cases (contains_key policy first)) [
      | inr absent ↦
          subst (Cleaned policy (first ∷ names) reasons)
            (sym (boolean_values_of_absent policy first names reasons absent))
            (λ h.
              let (empty, reads) = boolean_values_of_clean policy names reasons h in
              (
                empty,
                λ name m k. elim (Bool-cases (bytes_eq first name)) [
                  | inl e ↦
                      clash (contains_key policy name)
                        (ap (contains_key policy) (sym (bytes_eq→eq first name e)) ∙ absent) k _
                  | inr e ↦ reads name (ground (arith, e)) k
                ],
              ))
      | inl present ↦
          subst (Cleaned policy (first ∷ names) reasons)
            (sym (boolean_values_of_present policy first names reasons present))
            (λ h.
              let (empty, reads) = boolean_values_of_clean policy names _ h in
              let (before, reading) =
                integer_clean policy first (boolean_rule first) reasons empty in
              (
                before,
                λ name m k. elim (Bool-cases (bytes_eq first name)) [
                  | inl e ↦ (
                    (integer policy first (boolean_rule first) reasons).0,
                    rw (e) refl,
                    subst
                        (λ n.
                          Reading policy n (boolean_rule n)
                            (integer policy first (boolean_rule first) reasons).0)
                        (bytes_eq→eq first name e) reading,
                  )
                  | inr e ↦
                      let (value, found, read) = reads name (ground (arith, e)) k in
                      (value, rw (e) found, read)
                ],
              ))
    ]
