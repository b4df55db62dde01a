-- ===== src/Protocol/Instances.antt =====
-- The UID of a meeting request does not depend on the instance that it names
-- (crates/eas/src/protocol/global_object_id.rs).
use eas_mail_mcp.Base.{
  ℕ, zero, suc, ◌+◌, ◌-◌, ◌≤◌, ◌<◌, ◌≡◌, refl, ap, sym, ◌∙◌, true, Bool-cases, inl, inr, ◌&&◌,
  Option, none, some, [], ◌∷◌, ◌++◌, Bytes, leb, leb→le, le→leb, if◌then◌else◌, length,
  length-append, take, drop, ok, err, ◌>>=◌, ok_or, arith,
}
use mathlib.Core.Path.{fun_ext}
use eas_mail_mcp.EasError.{protocol, Result}
use eas_mail_mcp.Protocol.GlobalObjectId.{
  header_len, vcal_marker, get_range, read_count, strip_prefix, hex_text, clear_instance,
  encoded_outlook_uid, vcal_or, bounded_uid, uid_of_bytes,
}

drop-append : (a b : Bytes) (n m : ℕ) → n ≡ length a + m → drop n (a ++ b) ≡ drop m b
drop-append [] b n m h = ap (λ k. drop k b) (omega (arith, h))
drop-append (x ∷ a) b zero m h = absurd (omega (arith, h))
drop-append (x ∷ a) b (suc n) m h = drop-append a b n m (omega (arith, h))

take-append : (a b : Bytes) (n m : ℕ) → n ≡ length a + m → take n (a ++ b) ≡ a ++ take m b
take-append [] b n m h = ap (λ k. take k b) (omega (arith, h))
take-append (x ∷ a) b zero m h = absurd (omega (arith, h))
take-append (x ∷ a) b (suc n) m h = ap (λ l. x ∷ l) (take-append a b n m (omega (arith, h)))

length-take_le : (bytes : Bytes) (n : ℕ) → length (take n bytes) ≤ n
length-take_le bytes zero = omega arith
length-take_le [] (suc n) = omega arith
length-take_le (b ∷ bytes) (suc n) = omega (arith, length-take_le bytes n)

append-nil_right : (a : Bytes) → a ++ [] ≡ a
append-nil_right [] = refl
append-nil_right (x ∷ a) = ap (λ l. x ∷ l) (append-nil_right a)

clear_instance_long :
    (bytes : Bytes)
    → 20 ≤ length bytes
    → clear_instance bytes ≡ some (take 16 bytes ++ (0 ∷ 0 ∷ 0 ∷ 0 ∷ drop 20 bytes))
clear_instance_long bytes h = rw (le→leb 20 (length bytes) h) refl

clear_instance_short : (bytes : Bytes) → length bytes < 20 → clear_instance bytes ≡ none
clear_instance_short bytes h = ground arith

cleared :
    (a date rest : Bytes)
    → length a ≡ 16
    → length date ≡ 4
    → clear_instance (a ++ (date ++ rest)) ≡ some (a ++ (0 ∷ 0 ∷ 0 ∷ 0 ∷ rest))
cleared a date rest before four =
    clear_instance_long (a ++ (date ++ rest))
      (omega (arith, length-append a (date ++ rest), length-append date rest, before, four))
    ∙ (λ i. some (first i ++ (0 ∷ 0 ∷ 0 ∷ 0 ∷ last i)))
  where
    first : take 16 (a ++ (date ++ rest)) ≡ a
    first = take-append a (date ++ rest) 16 0 (omega (arith, before)) ∙ append-nil_right a

    last : drop 20 (a ++ (date ++ rest)) ≡ rest
    last =
        drop-append a (date ++ rest) 20 4 (omega (arith, before))
        ∙ drop-append date rest 4 0 (omega (arith, four))

-- `uid_of_bytes` by what it reads of the bytes.
abbrev uid_parts : Option Bytes → ℕ → (ℕ → Option Bytes) → (ℕ → Result Bytes) → Result Bytes
uid_parts counted size content_to outlook_to =
    ok_or (read_count counted) (protocol "meeting GlobalObjId header is truncated") >>= λ count.
    ok_or (if leb (header_len + count) size then some (header_len + count) else none)
      (protocol "meeting GlobalObjId data length is invalid")
    >>= λ end.
        ok_or (content_to end) (protocol "meeting GlobalObjId data is missing") >>= λ content.
        vcal_or (outlook_to end) (strip_prefix vcal_marker content) >>= λ uid. bounded_uid uid

module _ (a date rest : Bytes) (before : length a ≡ 16) (four : length date ≡ 4) where
  abbrev object_id : Bytes
  object_id = a ++ (date ++ rest)

  length-object_id : length object_id ≡ 20 + length rest
  length-object_id =
      omega (arith, length-append a (date ++ rest), length-append date rest, before, four)

  drop-object_id : (n m : ℕ) → n ≡ 20 + m → drop n object_id ≡ drop m rest
  drop-object_id n m h =
      drop-append a (date ++ rest) n (4 + m) (omega (arith, h, before))
      ∙ drop-append date rest (4 + m) m (omega (arith, four))

  take-object_id : (n m : ℕ) → n ≡ 20 + m → take n object_id ≡ a ++ (date ++ take m rest)
  take-object_id n m h =
      take-append a (date ++ rest) n (4 + m) (omega (arith, h, before))
      ∙ ap (λ l. a ++ l) (take-append date rest (4 + m) m (omega (arith, four)))

  -- What the functions make of it, without the date.
  abbrev range_without : ℕ → ℕ → Option Bytes
  range_without start end =
      if leb start end && leb end (20 + length rest)
      then some (take (end - start) (drop (start - 20) rest))
      else none

  get_range-object_id :
      (start end : ℕ) → 20 ≤ start → get_range object_id start end ≡ range_without start end
  get_range-object_id start end h =
      rw (length-object_id, drop-object_id start (start - 20) (omega arith)) refl

  abbrev outlook_cut : ℕ → Result Bytes
  outlook_cut end =
      if leb 20 end
      then ok (hex_text (a ++ (0 ∷ 0 ∷ 0 ∷ 0 ∷ take (end - 20) rest)))
      else err (protocol "meeting GlobalObjId instance date is missing")

  abbrev outlook_without : ℕ → Result Bytes
  outlook_without end =
      if leb end (20 + length rest)
      then outlook_cut end
      else err (protocol "meeting GlobalObjId is truncated")

  get_range_start :
      (end : ℕ)
      → get_range object_id 0 end
        ≡ (if leb end (20 + length rest) then some (take end object_id) else none)
  get_range_start end = rw length-object_id (ground arith)

  outlook_kept :
      (end : ℕ)
      → leb end (20 + length rest) ≡ true
      → (ok_or
            (clear_instance (take end object_id))
            (protocol "meeting GlobalObjId instance date is missing")
          >>= λ normalized. ok (hex_text normalized))
        ≡ outlook_cut end
  outlook_kept end fits = elim (Bool-cases (leb 20 end)) [
    | inl long ↦ rw long (
        rw
          (
            take-object_id end (end - 20) (omega (arith, leb→le 20 end long)),
            cleared a date (take (end - 20) rest) before four,
          )
          refl)
    | inr short ↦ rw short (
        rw
          (clear_instance_short (take end object_id) (ground (arith, length-take_le object_id end)))
          refl)
  ]

  encoded_outlook_uid-object_id :
      (end : ℕ) → encoded_outlook_uid object_id end ≡ outlook_without end
  unfolding encoded_outlook_uid
  encoded_outlook_uid-object_id end = elim (Bool-cases (leb end (20 + length rest))) [
    | inl fits ↦ rw (get_range_start end) (rw fits (outlook_kept end fits))
    | inr long ↦ rw (get_range_start end) (rw long refl)
  ]

  uid_of_object_id :
      uid_of_bytes object_id
      ≡ uid_parts
          (range_without 36 header_len)
          (20 + length rest)
          (range_without header_len)
          outlook_without
  unfolding uid_of_bytes
  uid_of_object_id =
      ap
        (λ c.
          uid_parts c (length object_id) (get_range object_id header_len)
            (encoded_outlook_uid object_id))
        (get_range-object_id 36 header_len (omega arith))
      ∙ ap
          (λ n.
            uid_parts (range_without 36 header_len) n (get_range object_id header_len)
              (encoded_outlook_uid object_id))
          length-object_id
      ∙ ap
          (λ f.
            uid_parts (range_without 36 header_len) (20 + length rest) f
              (encoded_outlook_uid object_id))
          (fun_ext (λ end. get_range-object_id header_len end (omega arith)))
      ∙ ap (uid_parts (range_without 36 header_len) (20 + length rest) (range_without header_len))
          (fun_ext encoded_outlook_uid-object_id)

-- The bytes 16 to 19 of an identifier, which name an instance of a series, do not matter: whatever
-- stands there, the same UID is read, or the same error.
pub uid_of_instances :
    (a date other rest : Bytes)
    → length a ≡ 16
    → length date ≡ 4
    → length other ≡ 4
    → uid_of_bytes (a ++ (date ++ rest)) ≡ uid_of_bytes (a ++ (other ++ rest))
uid_of_instances a date other rest before four also =
    uid_of_object_id a date rest before four ∙ sym (uid_of_object_id a other rest before also)
