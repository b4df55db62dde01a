-- ===== src/Wbxml/Steps.antt =====
-- Runs of the decoder's loop as a relation, and the loop's result from a run to the end.
use eas_mail_mcp.Base.{
  ℕ, zero, suc, ◌+◌, ◌≤◌, ◌<◌, ◌≡◌, ap, Option, List, [], ◌∷◌, Bytes, length, drop, arith,
  Option-cases, Result-cases, inl, inr, ◌*◌, ◌^◌, ◌%◌, ok, ◌>>=◌,
}
use eas_mail_mcp.Wbxml.Tokens.{max_depth}
use eas_mail_mcp.Wbxml.Element.{Element, opaque}
use eas_mail_mcp.Wbxml.CodePage.{CodePage}
use eas_mail_mcp.Wbxml.Mbuint.{byte, mbuint_loop, mbuint}
use eas_mail_mcp.Wbxml.Decode.{
  Document, bytes, attach, append_node, finish_element, read_switch, read_text, read_opaque,
  position_nul, inline_string, rest_of, finish, start_element, read_token, step, read_loop,
}

abbrev pub document : Bytes → ℕ → List Element → Option Element → Document
document input page stack root = record {
  input = input;
  current_page = page;
  stack = stack;
  root = root;
}

pub data Steps (pages : List CodePage) : Document → Document → Type 0 where
  here : {d : Document} → Steps pages d d
  next :
      {d d' d'' : Document} (t : ℕ) (input : Bytes)
      → d.input ≡ t ∷ input
      → step pages t (rest_of d input) ≡ ok d'
      → Steps pages d' d''
      → Steps pages d d''

pub Steps-trans :
    {pages : List CodePage} {a b c : Document} → Steps pages a b → Steps pages b c → Steps pages a c
Steps-trans here s = s
Steps-trans (next t input e h r) s = next t input e h (Steps-trans r s)

-- Every operation of the reader leaves less than it was given.
byte-shorter :
    (input : Bytes) (b : ℕ) (rest : Bytes) → byte input ≡ ok (b, rest) → length rest < length input
unfolding byte
byte-shorter [] b rest h = cc
byte-shorter (c ∷ input) b rest h = ground arith

length-drop_le : (n : ℕ) (xs : Bytes) → length (drop n xs) ≤ length xs
length-drop_le zero xs = omega arith
length-drop_le (suc n) [] = omega arith
length-drop_le (suc n) (x ∷ xs) = omega (arith, length-drop_le n xs)

pub bytes-no_longer :
    (n : ℕ) (input : Bytes) {value rest : Bytes}
    → bytes n input ≡ ok (value, rest)
    → length rest ≤ length input
unfolding bytes
bytes-no_longer n input h = ground (arith, length-drop_le n input)

pub inline_string-no_longer :
    (input : Bytes) {value rest : Bytes}
    → inline_string input ≡ ok (value, rest)
    → length rest ≤ length input
unfolding inline_string
inline_string-no_longer input h = elim (Option-cases (position_nul input)) [
  | inl none_found ↦ cc (rw none_found at h)
  | inr (n, e) ↦ ground (arith, rw e at h, length-drop_le n input, length-drop_le 1 (drop n input))
]

mbuint_loop-no_longer :
    (rounds value : ℕ) (input : Bytes) (n : ℕ) (rest : Bytes)
    → mbuint_loop rounds value input ≡ ok (n, rest)
    → length rest ≤ length input
unfolding mbuint_loop
mbuint_loop-no_longer zero value input n rest h = cc
mbuint_loop-no_longer (suc rounds) value [] n rest h = cc
mbuint_loop-no_longer (suc rounds) value (b ∷ input) n rest h =
    ground (arith, mbuint_loop-no_longer rounds (value * 128 % 2 ^ 64 + b % 128) input n rest)

mbuint-no_longer :
    (input : Bytes) (n : ℕ) (rest : Bytes)
    → mbuint input ≡ ok (n, rest)
    → length rest ≤ length input
unfolding mbuint
mbuint-no_longer input n rest h = mbuint_loop-no_longer 10 0 input n rest h

module _ (d : Document) {d' : Document} where
  attach-no_longer : (e : Element) → attach e d ≡ ok d' → length d'.input ≤ length d.input
  attach-no_longer e h = ground arith

  finish_element-no_longer : finish_element d ≡ ok d' → length d'.input ≤ length d.input
  finish_element-no_longer h = ground arith

  read_switch-no_longer : read_switch d ≡ ok d' → length d'.input ≤ length d.input
  unfolding read_switch
  read_switch-no_longer h = ground (arith)

  read_text-no_longer : read_text d ≡ ok d' → length d'.input ≤ length d.input
  unfolding read_text
  read_text-no_longer h = elim (Result-cases (inline_string d.input)) [
    | inr (x, e) ↦ cc (rw e at h)
    | inl ((value, rest), e) ↦ ground (arith, rw e at h, inline_string-no_longer d.input e)
  ]

  read_opaque_rest :
      (n : ℕ) (input : Bytes)
      → (bytes n input >>= λ x. append_node (opaque x.0) (record d { input = x.1 })) ≡ ok d'
      → length d'.input ≤ length input
  read_opaque_rest n input h = elim (Result-cases (bytes n input)) [
    | inr (x, e) ↦ cc (rw e at h)
    | inl ((value, rest), e) ↦ ground (arith, rw e at h, bytes-no_longer n input e)
  ]

  read_opaque-no_longer : read_opaque d ≡ ok d' → length d'.input ≤ length d.input
  unfolding read_opaque
  read_opaque-no_longer h = elim (Result-cases (mbuint d.input)) [
    | inr (x, e) ↦ cc (rw e at h)
    | inl ((n, input), e) ↦
        omega (arith, read_opaque_rest n input (rw e at h), mbuint-no_longer d.input n input e)
  ]

  start_element-no_longer :
      (pages : List CodePage) (t : ℕ)
      → start_element pages t d ≡ ok d'
      → length d'.input ≤ length d.input
  unfolding start_element
  start_element-no_longer pages t h = ground arith

  read_token-no_longer :
      (pages : List CodePage) (t : ℕ)
      → read_token pages t d ≡ ok d'
      → length d'.input ≤ length d.input
  read_token-no_longer pages t h =
      unfold read_token in
      ground (
        arith,
        read_switch-no_longer,
        finish_element-no_longer,
        read_text-no_longer,
        read_opaque-no_longer,
        start_element-no_longer pages t,
      )

  -- A round that succeeds is the arm of its token, with the nesting in bounds.
  pub step_inversion :
      (pages : List CodePage) (t : ℕ)
      → step pages t d ≡ ok d'
      → (read_token pages t d ≡ ok d') × (length d'.stack ≤ max_depth)
  unfolding step
  step_inversion pages t h = elim (Result-cases (read_token pages t d)) [
    | inr (x, e) ↦ cc (rw e at h)
    | inl (d'', e) ↦ let h' = rw e at h in (ground (arith, h'), ground (arith, h'))
  ]

  -- A round of the loop leaves no more than it found behind the token.
  pub step-no_longer :
      (pages : List CodePage) (t : ℕ) → step pages t d ≡ ok d' → length d'.input ≤ length d.input
  step-no_longer pages t h = read_token-no_longer pages t (step_inversion pages t h).0

-- With fuel for every byte, a run to the end of the input gives the result of the loop.
pub read_loop-Steps :
    (pages : List CodePage) {d d' : Document} (fuel : ℕ)
    → Steps pages d d'
    → d'.input ≡ []
    → length d.input ≤ fuel
    → read_loop pages fuel d ≡ finish d'
unfolding read_loop
read_loop-Steps pages zero here e l = ground arith
read_loop-Steps pages (suc fuel) here e l = ground arith
read_loop-Steps pages zero (next t input e h s) e' l = absurd (omega (arith, ap length e))
read_loop-Steps pages {d} {d'} (suc fuel) (next {d' = d₁} t input e h s) e' l = ground (
  arith,
  ap length e,
  step-no_longer (rest_of d input) pages t h,
  read_loop-Steps pages fuel s e',
)
