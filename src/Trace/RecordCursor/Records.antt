-- ===== src/Trace/RecordCursor/Records.antt =====
-- src/trace/wire_format.cpp and src/trace/trace_reader.cpp: `append_record` and `RecordCursor::next`.
use noleax.Prelude.{
  [], ℕ, ◌+◌, ◌^◌, ◌≤◌, ◌<◌, ◌++◌, length, length-append, some, ◌≡◌, ◌≢◌, ◌↔◌, refl, ap, sym, arith,
  IsU64,
}
use noleax.Prelude.Error.{ok}
use noleax.Trace.Bytes.{
  Bytes, ◌▷◌, little_endian, append_u16-little_endian, append_u32-little_endian,
  append_string_bytes,
}
use noleax.Trace.WireFormat.{append_frame, framed_size, append_record}
use noleax.Trace.RecordCursor.{next}
use noleax.Trace.RecordCursor.Framing.{cursor_at, view_of, framed, length-framed, next-framed}
use mathlib.Core.List.{append_assoc}

-- A payload that fits into a record of the largest size and, framed, into the chunk.
pub record Fits (chunk : Bytes) (size maximum : ℕ) : Type 0 where
  pub in_record : size + 8 ≤ maximum
  pub in_word : maximum < 2 ^ 32
  pub in_chunk : IsU64 (length chunk + size + 8)

-- The chunk with the frame behind it is the result exactly where the type and the version are not 0,
-- the payload with the header fits into a record of the largest size and into a number of 32 bits,
-- and the chunk's size does not overflow one of 64 bits.
pub append_record_lem :
    (chunk payload : Bytes) (type version maximum : ℕ)
    → (append_record chunk type version payload maximum
        ≡ ok (append_frame type version payload chunk))
      ↔ ((type ≢ 0)
          × (version ≢ 0)
          × (length payload + 8 ≤ maximum)
          × (length payload + 8 < 2 ^ 32)
          × (length chunk + length payload + 8 < 2 ^ 64))
unfolding append_record
append_record_lem chunk payload type version maximum =
    (λ h. ground (arith, h), λ h. ground (arith, h))

append_frame-framed :
    (chunk payload rest : Bytes) (type version : ℕ)
    → append_frame type version payload chunk ++ rest
      ≡ framed chunk payload rest type version (framed_size payload)
unfolding append_frame ◌▷◌ append_string_bytes
append_frame-framed chunk payload rest type version =
    rw
      (
        append_u16-little_endian type chunk,
        append_u16-little_endian version (chunk ++ little_endian 2 type),
        append_u32-little_endian (framed_size payload)
            ((chunk ++ little_endian 2 type) ++ little_endian 2 version),
      )
      (simp append_assoc refl)

length-append_frame :
    (chunk payload : Bytes) (type version : ℕ)
    → length (append_frame type version payload chunk) ≡ length chunk + 8 + length payload
length-append_frame chunk payload type version = omega (
  arith,
  length-append (append_frame type version payload chunk) [],
  ap length (append_frame-framed chunk payload [] type version),
  length-framed chunk payload [] type version (framed_size payload),
)

-- A record that `append_record` frames at the end of a chunk is the one that the cursor finds at the
-- offset where the chunk ended, whatever follows in the chunk, and the cursor then stands at the end
-- of the frame. The type and the version are words of 16 bits other than 0, and the payload fits.
pub next-append_record :
    (chunk payload rest : Bytes) (type version maximum : ℕ)
    → type ≢ 0
    → type < 2 ^ 16
    → version ≢ 0
    → version < 2 ^ 16
    → Fits chunk (length payload) maximum
    → (chunk' : Bytes) × (append_record chunk type version payload maximum ≡ ok chunk')
      × (next (cursor_at (chunk' ++ rest) (length chunk) maximum)
          ≡ ok (
            some (view_of type version payload),
            cursor_at (chunk' ++ rest) (length chunk') maximum,
          ))
next-append_record chunk payload rest type version maximum t0 t v0 v fits =
    let size : framed_size payload ≡ length payload + 8 =
      omega (arith, fits.in_record, fits.in_word) in
    let whole = append_frame-framed chunk payload rest type version in
    let end : length chunk + framed_size payload
        ≡ length (append_frame type version payload chunk) =
      omega (arith, size, length-append_frame chunk payload type version) in
    (
      append_frame type version payload chunk,
      (append_record_lem chunk payload type version maximum).1
          (t0, v0, fits.in_record, omega (arith, fits.in_record, fits.in_word), fits.in_chunk),
      rw (whole, sym end)
          (next-framed chunk payload rest type version (framed_size payload) maximum t0 t v0 v
            (omega (arith, size, fits.in_record, fits.in_word)) size
            (omega (arith, size, fits.in_record))),
    )
