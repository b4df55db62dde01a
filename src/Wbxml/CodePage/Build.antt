-- ===== src/Wbxml/CodePage/Build.antt =====
-- What the build checks of the table of code pages (crates/eas/build.rs), and what the codec gets
-- from it: a page is found again by its identifier, and a tag by its token.
use eas_mail_mcp.Base.{
  ℕ, suc, ◌+◌, ◌≤◌, ◌<◌, ◌≡◌, refl, ap, subst, Bool, true, false, ◌||◌, not, some, String, List, [],
  ◌∷◌, Bytes, bytes_eq, bytes_eq→eq, eq_ignore_ascii_case, get_elem?, length, All, arith, ◌==◌,
  Result, ok, ◌>>◌, guard, Bool-cases, inl, inr,
}
use eas_mail_mcp.Wbxml.CodePage.{
  CodePage, code_page, find_namespace, code_page_for_namespace, find_tag, tag, find_token, token,
}

abbrev pub contains_token : List (ℕ × Bytes) → ℕ → Bool
contains_token [] t = false
contains_token ((candidate, _) ∷ tags) t = candidate == t || contains_token tags t

abbrev pub contains_name : List (ℕ × Bytes) → Bytes → Bool
contains_name [] name = false
contains_name ((_, candidate) ∷ tags) name = bytes_eq candidate name || contains_name tags name

-- `sort_unstable` and `dedup` shorten a list exactly when it holds a value twice.
abbrev pub repeats_token : List (ℕ × Bytes) → Bool
repeats_token [] = false
repeats_token ((t, _) ∷ tags) = contains_token tags t || repeats_token tags

abbrev pub repeats_name : List (ℕ × Bytes) → Bool
repeats_name [] = false
repeats_name ((_, name) ∷ tags) = contains_name tags name || repeats_name tags

-- The loop of `validate`, from the page that is expected next.
validate_from : ℕ → List CodePage → Result String (Unit {0})
validate_from expected [] = ok tt
validate_from expected (page ∷ pages) = do
  guard (page.id == expected) "code pages must be contiguous"
  guard (not (repeats_token page.tags)) "duplicate token on page"
  guard (not (repeats_name page.tags)) "duplicate tag on page"
  validate_from (expected + 1) pages

unfoldable pub validate : List CodePage → Result String (Unit {0})
unfolding validate_from
validate pages = do
  guard (length pages == 25) "all 25 MS-ASWBXML code pages are required"
  validate_from 0 pages

-- A tag's token is below 64 and is none of the global tokens.
abbrev pub TokensInRange : List CodePage → Type 0
TokensInRange = All (λ page. All (λ (t : ℕ × Bytes). (5 ≤ t.0) × (t.0 < 64)) page.tags)

find_token-contains :
    (tags : List (ℕ × Bytes)) (name : Bytes) (t : ℕ)
    → find_token tags name ≡ some t
    → contains_token tags t ≡ true
find_token-contains [] name t h = cc
find_token-contains ((u, c) ∷ tags) name t h = ground (arith, find_token-contains tags name t)

find_tag-find_token :
    (tags : List (ℕ × Bytes)) (name : Bytes) (t : ℕ)
    → repeats_token tags ≡ false
    → find_token tags name ≡ some t
    → find_tag tags t ≡ some name
find_tag-find_token [] name t r h = cc
find_tag-find_token ((u, c) ∷ tags) name t r h =
    ground
      (arith, bytes_eq→eq c name, find_token-contains tags name t, find_tag-find_token tags name t)

-- What the codec uses of a page that it has looked up.
pub record IsUsable (pages : List CodePage) (page : CodePage) : Type 0 where
  pub by_id : code_page pages page.id ≡ ok page
  pub distinct : repeats_token page.tags ≡ false
  pub in_range : All (λ (t : ℕ × Bytes). (5 ≤ t.0) × (t.0 < 64)) page.tags

abbrev Found : List CodePage → ℕ → CodePage → Type 0
Found pages n page =
    (i : ℕ) × (page.id ≡ n + i)
    × (get_elem? pages i ≡ some page)
    × (repeats_token page.tags ≡ false)
    × All (λ (t : ℕ × Bytes). (5 ≤ t.0) × (t.0 < 64)) page.tags

validate_step :
    (page : CodePage) (pages : List CodePage) (n : ℕ)
    → validate_from n (page ∷ pages) ≡ ok tt
    → (page.id ≡ n) × (repeats_token page.tags ≡ false) × (validate_from (n + 1) pages ≡ ok tt)
unfolding validate_from
validate_step page pages n h = ground arith

Found-later :
    (page p : CodePage) (pages : List CodePage) (n : ℕ)
    → Found pages (n + 1) page
    → Found (p ∷ pages) n page
Found-later page p pages n (i, e, g, d, r) = (suc i, omega arith, g, d, r)

find_namespace-Found :
    (pages : List CodePage) (namespace : Bytes) (page : CodePage) (n : ℕ)
    → validate_from n pages ≡ ok tt
    → TokensInRange pages
    → find_namespace pages namespace ≡ some page
    → Found pages n page
find_namespace-Found [] namespace page n v r h = cc
find_namespace-Found (p ∷ pages) namespace page n v (rp, r) h =
    let (e, d, v') = validate_step p pages n v in
    elim (Bool-cases (eq_ignore_ascii_case p.namespace namespace)) [
      | inl same ↦
          let q : p ≡ page = ground arith in
          subst (Found (p ∷ pages) n) q (0, omega arith, refl, d, rp)
      | inr other ↦
          Found-later page p pages n
            (find_namespace-Found pages namespace page (n + 1) v' r (rw other at h))
    ]

-- A page that the encoder finds by its namespace is found again by its identifier, and its tokens
-- are distinct and in range.
pub code_page_for_namespace-IsUsable :
    (pages : List CodePage) (namespace : Bytes) (page : CodePage)
    → validate pages ≡ ok tt
    → TokensInRange pages
    → code_page_for_namespace pages namespace ≡ ok page
    → IsUsable pages page
unfolding validate code_page_for_namespace code_page
code_page_for_namespace-IsUsable pages namespace page v r h =
    let (i, e, g, d, t) =
      find_namespace-Found pages namespace page 0 (ground arith) r (ground arith) in
    record {
      by_id = let e' : page.id ≡ i = omega arith in ground (arith, ap (get_elem? pages) e');
      distinct = d;
      in_range = t;
    }

find_token-in_range :
    (tags : List (ℕ × Bytes)) (name : Bytes) (t : ℕ)
    → All (λ (t : ℕ × Bytes). (5 ≤ t.0) × (t.0 < 64)) tags
    → find_token tags name ≡ some t
    → (5 ≤ t) × (t < 64)
find_token-in_range [] name t r h = cc
find_token-in_range ((u, c) ∷ tags) name t (ru, r) h =
    ground (arith, find_token-in_range tags name t r)

-- The token that the encoder writes for a tag is in range, and the decoder finds the tag by it.
pub tag-token :
    (pages : List CodePage) (page : CodePage) (name : Bytes) (t : ℕ)
    → IsUsable pages page
    → token page name ≡ ok t
    → (tag page t ≡ ok name) × (5 ≤ t) × (t < 64)
unfolding tag token
tag-token pages page name t u h =
    let found : find_token page.tags name ≡ some t = ground arith in
    let (lo, hi) = find_token-in_range page.tags name t u.in_range found in
    (ground (arith, find_tag-find_token page.tags name t u.distinct found), lo, hi)
