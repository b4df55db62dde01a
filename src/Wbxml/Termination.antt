-- ===== src/Wbxml/Termination.antt =====
-- The decoder answers on every input: its loop never runs out of fuel.
use eas_mail_mcp.Base.{
  ℕ, zero, suc, ◌+◌, ◌*◌, ◌%◌, ◌^◌, ◌≤◌, ◌≢◌, Option-cases, Result-cases, inl, inr, List, [], ◌∷◌,
  Bytes, length, arith, ok, err, ◌>>=◌, Option, none, Bool, true, false, String, guard, ◌>>◌,
}
use eas_mail_mcp.EasError.{protocol, stuck, Result}
use eas_mail_mcp.Wbxml.Element.{Element, opaque}
use eas_mail_mcp.Wbxml.CodePage.{CodePage, code_page, tag}
use eas_mail_mcp.Wbxml.Mbuint.{byte, mbuint_loop, mbuint}
use eas_mail_mcp.Wbxml.Decode.{
  Document, bytes, append_node, read_switch, read_text, read_opaque, position_nul, inline_string,
  start_element, read_token, step, read_loop, read_header, read_document, decode,
}
use eas_mail_mcp.Wbxml.Steps.{document, step-no_longer}

mbuint_loop-ne-stuck :
    (rounds value : ℕ) (input : Bytes) → mbuint_loop rounds value input ≢ err stuck
unfolding mbuint_loop
mbuint_loop-ne-stuck zero value input h = cc
mbuint_loop-ne-stuck (suc rounds) value [] h = cc
mbuint_loop-ne-stuck (suc rounds) value (b ∷ input) h =
    ground (arith, mbuint_loop-ne-stuck rounds (value * 128 % 2 ^ 64 + b % 128) input)

mbuint-ne-stuck : (input : Bytes) → mbuint input ≢ err stuck
unfolding mbuint
mbuint-ne-stuck input = mbuint_loop-ne-stuck 10 0 input

bytes-ne-stuck : (n : ℕ) (input : Bytes) → bytes n input ≢ err stuck
unfolding bytes
bytes-ne-stuck n input h = ground arith

inline_string-ne-stuck : (input : Bytes) → inline_string input ≢ err stuck
unfolding inline_string
inline_string-ne-stuck input h = elim (Option-cases (position_nul input)) [
  | inl none_found ↦ cc (rw none_found at h)
  | inr (n, e) ↦ ground (arith, rw e at h)
]

module _ (d : Document) where
  read_text-ne-stuck : read_text d ≢ err stuck
  unfolding read_text
  read_text-ne-stuck h = elim (Result-cases (inline_string d.input)) [
    | inr (x, e) ↦ ground (arith, rw e at h, inline_string-ne-stuck d.input)
    | inl ((value, rest), e) ↦ ground (arith, rw e at h)
  ]

  read_opaque_rest :
      (n : ℕ) (input : Bytes)
      → (bytes n input >>= λ x. append_node (opaque x.0) (record d { input = x.1 })) ≢ err stuck
  read_opaque_rest n input h = elim (Result-cases (bytes n input)) [
    | inr (x, e) ↦ ground (arith, rw e at h, bytes-ne-stuck n input)
    | inl ((value, rest), e) ↦ ground (arith, rw e at h)
  ]

  read_opaque-ne-stuck : read_opaque d ≢ err stuck
  unfolding read_opaque
  read_opaque-ne-stuck h = elim (Result-cases (mbuint d.input)) [
    | inr (x, e) ↦ ground (arith, rw e at h, mbuint-ne-stuck d.input)
    | inl ((n, input), e) ↦ read_opaque_rest n input (rw e at h)
  ]

  read_token-ne-stuck : (pages : List CodePage) (t : ℕ) → read_token pages t d ≢ err stuck
  unfolding read_token start_element code_page tag read_switch byte
  read_token-ne-stuck pages t h = ground (arith, read_text-ne-stuck, read_opaque-ne-stuck)

  step-ne-stuck : (pages : List CodePage) (t : ℕ) → step pages t d ≢ err stuck
  unfolding step
  step-ne-stuck pages t h = elim (Result-cases (read_token pages t d)) [
    | inr (x, e) ↦ ground (arith, rw e at h, read_token-ne-stuck pages t)
    | inl (d', e) ↦ ground (arith, rw e at h)
  ]

read_loop-ne-stuck :
    (pages : List CodePage) (fuel : ℕ) (input : Bytes) (page : ℕ) (stack : List Element)
    (root : Option Element)
    → length input ≤ fuel
    → read_loop pages fuel (document input page stack root) ≢ err stuck
unfolding read_loop
read_loop-ne-stuck pages zero [] page stack root l h = ground arith
read_loop-ne-stuck pages zero (t ∷ input) page stack root l h = absurd (omega arith)
read_loop-ne-stuck pages (suc fuel) [] page stack root l h = ground arith
read_loop-ne-stuck pages (suc fuel) (t ∷ input) page stack root l h =
    let d : Document = document input page stack root in
    elim (Result-cases (step pages t d)) [
      | inr (x, e) ↦ ground (arith, rw e at h, step-ne-stuck d pages t)
      | inl (d', e) ↦
          read_loop-ne-stuck pages fuel d'.input d'.current_page d'.stack d'.root
            (omega (arith, step-no_longer d pages t e)) (rw e at h)
    ]

bind-ne-stuck :
    {A B : Type 0} (m : Result A) (f : A → Result B)
    → m ≢ err stuck
    → ((a : A) → f a ≢ err stuck)
    → (m >>= f) ≢ err stuck
bind-ne-stuck (ok a) f hm hf h = hf a h
bind-ne-stuck (err x) f hm hf h = hm (ground arith)

guard-ne-stuck :
    (b : Bool) (message : String) {k : Result Bytes}
    → k ≢ err stuck
    → (guard b (protocol message) >> k) ≢ err stuck
guard-ne-stuck true message hk h = hk h
guard-ne-stuck false message hk h = cc

ok-ne-stuck : (rest : Bytes) → ◌≢◌ {A = Result Bytes} (ok rest) (err stuck)
ok-ne-stuck rest h = cc

byte-ne-stuck : (input : Bytes) → byte input ≢ err stuck
unfolding byte
byte-ne-stuck [] h = cc
byte-ne-stuck (b ∷ input) h = cc

read_header-ne-stuck : (input : Bytes) → read_header input ≢ err stuck
unfolding read_header
read_header-ne-stuck input = bind-ne-stuck (byte input) _ (byte-ne-stuck input) λ (_, a).
    guard-ne-stuck _ _ (
      bind-ne-stuck (mbuint a) _ (mbuint-ne-stuck a) λ (_, b). guard-ne-stuck _ _ (
        bind-ne-stuck (mbuint b) _ (mbuint-ne-stuck b) λ (_, c). guard-ne-stuck _ _ (
          bind-ne-stuck (mbuint c) _ (mbuint-ne-stuck c)
            λ (_, d). guard-ne-stuck _ _ (ok-ne-stuck d))))

-- Decoding ends on every input, well formed or not: the loop never runs out of fuel.
pub decode-ne-stuck : (pages : List CodePage) (input : Bytes) → decode pages input ≢ err stuck
unfolding decode read_document
decode-ne-stuck pages [] h = cc
decode-ne-stuck pages (b ∷ input) h = elim (Result-cases (read_header (b ∷ input))) [
  | inr (x, e) ↦ ground (arith, rw e at h, read_header-ne-stuck (b ∷ input))
  | inl (rest, e) ↦ ground (arith, rw e at h, read_loop-ne-stuck pages (length rest) rest 0 [] none)
]
