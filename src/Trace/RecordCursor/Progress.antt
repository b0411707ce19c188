-- ===== src/Trace/RecordCursor/Progress.antt =====
-- src/trace/trace_reader.cpp: how far `RecordCursor::next` goes.
use mathlib.Core.Path.{subst}
use noleax.Prelude.{
  ℕ, zero, suc, ◌+◌, ◌-◌, ◌≤◌, [], ◌∷◌, Bool, true, false, ltb, length, Option, none, some, ◌≡◌,
  ◌≢◌, refl, arith,
}
use noleax.Prelude.Error.{ok, Holds, Holds-ok, Holds-throw_if, Holds-intro, trace_read_error}
use noleax.Trace.Bytes.{Bytes}
use noleax.Trace.PayloadReader.{split_at}
use noleax.Trace.RecordCursor.{
  RecordView, RecordCursor, done, bytes_from, subspan, next_record, advanced, next_of, next,
  read_at,
}

length-split_at : (n : ℕ) (l : Bytes) → n ≤ length l → length (split_at n l).0 ≡ n
unfolding split_at
length-split_at zero l h = refl
length-split_at (suc n) [] h = omega (arith, h)
length-split_at (suc n) (byte ∷ l) h = omega (arith, length-split_at n l (omega (arith, h)))

length-bytes_from : (offset : ℕ) (l : Bytes) → length (bytes_from offset l) ≡ length l - offset
unfolding bytes_from
length-bytes_from zero l = omega arith
length-bytes_from (suc offset) [] = omega arith
length-bytes_from (suc offset) (byte ∷ l) = omega (arith, length-bytes_from offset l)

length-subspan :
    (l : Bytes) (offset count : ℕ)
    → offset + count ≤ length l
    → length (subspan l offset count) ≡ count
unfolding subspan
length-subspan l offset count h =
    length-split_at count (bytes_from offset l) (omega (arith, h, length-bytes_from offset l))

-- The cursor that `next` leaves behind: it has passed a header and the whole of the view's payload,
-- no more than the largest size and nothing beyond the chunk.
pub record Progress (cursor : RecordCursor) (view : RecordView) (cursor' : RecordCursor)
    : Type 0 where
  pub same_chunk : cursor'.chunk_payload ≡ cursor.chunk_payload
  pub passed : cursor'.offset ≡ cursor.offset + 8 + length view.payload
  pub inside : cursor'.offset ≤ length cursor.chunk_payload
  pub small : length view.payload + 8 ≤ cursor.maximum_record_size
  pub typed : (view.record_type ≢ 0) × (view.version ≢ 0)

abbrev Steps : RecordCursor → Option RecordView × RecordCursor → Type 0
Steps cursor (none, cursor') = Unit {0}
Steps cursor (some view, cursor') = Progress cursor view cursor'

module _ (cursor : RecordCursor) (bound : cursor.offset ≤ length cursor.chunk_payload) where
  Holds-next_record :
      (remaining type version size : ℕ)
      → remaining ≡ length cursor.chunk_payload - cursor.offset
      → Holds (Steps cursor) (next_record cursor remaining type version size)
  unfolding next_record
  Holds-next_record remaining type version size e =
      Holds-intro (Steps cursor) (next_record cursor remaining type version size) (λ a h.
        let same : advanced cursor type version size ≡ a = ground (arith, h) in
        let large : 8 ≤ size = ground (arith, h) in
        let within : size ≤ remaining = ground (arith, h) in
        let fits : size ≤ cursor.maximum_record_size = ground (arith, h) in
        let span =
          length-subspan cursor.chunk_payload (cursor.offset + 8) (size - 8)
            (omega (arith, large, within, e, bound)) in
        subst (Steps cursor) same (record {
          same_chunk = refl;
          passed = omega (arith, span, large);
          inside = omega (arith, within, e, bound);
          small = omega (arith, span, large, fits);
          typed = (ground (arith, h), ground (arith, h));
        }))

  Holds-next_of : (b : Bool) → Holds (Steps cursor) (next_of b cursor)
  Holds-next_of true = tt
  Holds-next_of false =
      let remaining : ℕ = length cursor.chunk_payload - cursor.offset in
      Holds-throw_if (Steps cursor) (ltb remaining 8)
        (trace_read_error "record header is truncated")
        (next_record cursor remaining (read_at 2 cursor.chunk_payload cursor.offset)
          (read_at 2 cursor.chunk_payload (cursor.offset + 2))
          (read_at 4 cursor.chunk_payload (cursor.offset + 4)))
        (λ long.
          Holds-next_record remaining (read_at 2 cursor.chunk_payload cursor.offset)
            (read_at 2 cursor.chunk_payload (cursor.offset + 2))
            (read_at 4 cursor.chunk_payload (cursor.offset + 4)) refl)

  Holds-next : Holds (Steps cursor) (next cursor)
  unfolding next
  Holds-next = Holds-next_of (done cursor)

-- When `next` gives a record, the cursor, which stood inside the chunk, has gone forward by a header
-- and the payload of the view, and stands inside the chunk again; the payload and its header are no
-- larger than the largest record, and the type and the version are not 0.
pub next-Progress :
    (cursor cursor' : RecordCursor) (view : RecordView)
    → cursor.offset ≤ length cursor.chunk_payload
    → next cursor ≡ ok (some view, cursor')
    → Progress cursor view cursor'
next-Progress cursor cursor' view bound e =
    Holds-ok (Steps cursor) (next cursor) e (Holds-next cursor bound)
