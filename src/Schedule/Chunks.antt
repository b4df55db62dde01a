-- ===== src/Schedule/Chunks.antt =====
-- The split of a long query into ranges that the server takes
-- (crates/app/src/runtime/schedule/time.rs).
use eas_mail_mcp.Base.{
  ℕ, zero, suc, ◌+◌, ◌-◌, ◌*◌, ◌/◌, ◌≤◌, ◌<◌, ◌≡◌, refl, true, ◌&&◌, Option, none, some, List, [],
  ◌∷◌, arith, min, ltb, if◌then◌else◌, ok, err, lt→ltb, le→ltb_false,
}
use native.Mathlib.Decide.{dec_lt}
use eas_mail_mcp.AppError.{AppError, protocol_error, new, Result}
use eas_mail_mcp.Schedule.Interval.{UtcInterval, minute}

abbrev pub max_chunk : ℕ
max_chunk = 7 * 24 * 60 * minute

abbrev pub min_chunk : ℕ
min_chunk = 30 * minute

abbrev pub state_error : AppError
state_error = new protocol_error "calendar schedule state is inconsistent"

abbrev pub chunk_duration : ℕ → ℕ
chunk_duration remaining =
    if ltb max_chunk remaining && ltb (remaining - max_chunk) min_chunk
    then remaining - min_chunk
    else min remaining max_chunk

abbrev pub push_front :
    UtcInterval → Option (Result (List UtcInterval)) → Option (Result (List UtcInterval))
push_front chunk none = none
push_front chunk (some (ok chunks)) = some (ok (chunk ∷ chunks))
push_front chunk (some (err e)) = some (err e)

-- The loop from `cursor` on; `none` means that the fuel ran out.
unfoldable pub split_loop : ℕ → ℕ → ℕ → Option (Result (List UtcInterval))
split_loop zero cursor end = if ltb cursor end then none else some (ok [])
split_loop (suc fuel) cursor end =
    let duration = chunk_duration (end - cursor) in
    let next = cursor + duration in
    let rest = push_front (record { start = cursor; end = next }) (split_loop fuel next end) in
    if ltb cursor end
    then (if ltb duration min_chunk then some (err state_error) else rest)
    else some (ok [])

-- Every round moves the cursor by `min_chunk` at least.
unfoldable pub split_chunks : ℕ → ℕ → Option (Result (List UtcInterval))
unfolding split_loop
split_chunks start end = split_loop ((end - start) / min_chunk + 1) start end

-- The chunks lie end to end from `start` to `end`, each of 30 minutes to 7 days.
abbrev pub Tiles : ℕ → ℕ → List UtcInterval → Type 0
Tiles start end [] = start ≡ end
Tiles start end (chunk ∷ chunks) =
    (chunk.start ≡ start)
    × (chunk.start + min_chunk ≤ chunk.end)
    × (chunk.end ≤ chunk.start + max_chunk)
    × Tiles chunk.end end chunks

chunk_duration_bounds :
    (remaining : ℕ)
    → min_chunk ≤ remaining
    → (min_chunk ≤ chunk_duration remaining)
      × (chunk_duration remaining ≤ max_chunk)
      × (chunk_duration remaining ≤ remaining)
      × (chunk_duration remaining < remaining → min_chunk + chunk_duration remaining ≤ remaining)
chunk_duration_bounds remaining h = ground arith

abbrev Splits : ℕ → ℕ → Option (Result (List UtcInterval)) → Type 0
Splits start end r = (chunks : List UtcInterval) × (r ≡ some (ok chunks)) × Tiles start end chunks

split_loop-end : (fuel cursor end : ℕ) → end ≤ cursor → split_loop fuel cursor end ≡ some (ok [])
unfolding split_loop
split_loop-end zero cursor end h = rw (le→ltb_false cursor end h)
split_loop-end (suc fuel) cursor end h = rw (le→ltb_false cursor end h)

split_loop-more :
    (fuel cursor end : ℕ)
    → cursor < end
    → min_chunk ≤ chunk_duration (end - cursor)
    → split_loop (suc fuel) cursor end
      ≡ push_front
          (record { start = cursor; end = cursor + chunk_duration (end - cursor) })
          (split_loop fuel (cursor + chunk_duration (end - cursor)) end)
unfolding split_loop
split_loop-more fuel cursor end h k =
    rw (lt→ltb cursor end h, le→ltb_false (chunk_duration (end - cursor)) min_chunk k)

Splits-push_front :
    (cursor end : ℕ) (chunk : UtcInterval) (r : Option (Result (List UtcInterval)))
    → chunk.start ≡ cursor
    → chunk.start + min_chunk ≤ chunk.end
    → chunk.end ≤ chunk.start + max_chunk
    → Splits chunk.end end r
    → Splits cursor end (push_front chunk r)
Splits-push_front cursor end chunk r e lo hi (chunks, found, tiles) =
    (chunk ∷ chunks, rw found, (e, lo, hi, tiles))

split_loop-Splits :
    (fuel cursor end : ℕ)
    → cursor + min_chunk ≤ end
    → (end - cursor) / min_chunk < fuel
    → Splits cursor end (split_loop fuel cursor end)
split_loop-Splits zero cursor end h f = absurd (omega arith)
split_loop-Splits (suc fuel) cursor end h f =
    let d : ℕ = chunk_duration (end - cursor) in
    let (lo, hi, within, more) = chunk_duration_bounds (end - cursor) (omega arith) in
    let next : ℕ = cursor + chunk_duration (end - cursor) in
    rw (split_loop-more fuel cursor end (omega arith) lo) (
      Splits-push_front cursor end (record { start = cursor; end = next })
        (split_loop fuel next end) refl (omega arith) (omega arith)
        (elim (dec_lt (chunk_duration (end - cursor)) (end - cursor)) [
          | yes left ↦
              split_loop-Splits fuel next end (omega (arith, more left)) (omega (arith, more left))
          | no done ↦ ([], split_loop-end fuel next end (omega arith), omega arith)
        ]))

-- A range of at least 30 minutes is split: the loop ends without an error, and the chunks lie end to
-- end over the range, each of 30 minutes to 7 days.
pub split_chunks-Tiles :
    (start end : ℕ)
    → start + min_chunk ≤ end
    → (chunks : List UtcInterval) × (split_chunks start end ≡ some (ok chunks))
      × Tiles start end chunks
unfolding split_chunks
split_chunks-Tiles start end h =
    split_loop-Splits ((end - start) / min_chunk + 1) start end h (omega arith)

chunk_duration_short :
    (remaining : ℕ) → remaining < min_chunk → chunk_duration remaining ≡ remaining
chunk_duration_short remaining h = ground arith

-- A shorter range that is not empty is refused, and an empty one has no chunks.
pub split_chunks_short :
    (start end : ℕ)
    → end < start + min_chunk
    → split_chunks start end ≡ (if ltb start end then some (err state_error) else some (ok []))
unfolding split_chunks
split_chunks_short start end h =
    let one_round : (end - start) / min_chunk + 1 ≡ 1 = omega arith in
    let small : ltb (end - start) min_chunk ≡ true = lt→ltb (end - start) min_chunk (omega arith) in
    rw (one_round, chunk_duration_short (end - start) (omega arith), small)
