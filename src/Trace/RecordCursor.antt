-- ===== src/Trace/RecordCursor.antt =====
-- include/noleax/trace/trace_reader.hpp and src/trace/trace_reader.cpp: `RecordCursor`, which goes
-- over the records of a chunk's payload.
pub mod Framing
pub mod Records
mod Progress
mod Tests
use noleax.Prelude.{
  ℕ, zero, suc, ◌+◌, ◌-◌, List, [], ◌∷◌, Bool, true, false, ◌||◌, ◌==◌, ltb, length, Option, none,
  some,
}
use noleax.Prelude.Error.{Result, ok, err, trace_read_error, throw_if, ◌>>◌}
use noleax.Trace.Bytes.{Bytes}
use noleax.Trace.PayloadReader.{read_bytes, split_at}
use noleax.Trace.WireFormat.{record_header_size}
use Prim.Native.String.{String}

pub record RecordView : Type 0 where
  pub record_type : ℕ
  pub version : ℕ
  pub payload : Bytes

-- The offset is never beyond the payload's end.
pub record RecordCursor : Type 0 where
  pub chunk_payload : Bytes
  pub offset : ℕ
  pub maximum_record_size : ℕ

abbrev fail_if : Bool → String → Result (Unit {0})
fail_if test message = throw_if test (trace_read_error message)

unfoldable pub new_record_cursor : Bytes → ℕ → Result RecordCursor
new_record_cursor chunk_payload maximum_record_size = do
  fail_if (ltb maximum_record_size record_header_size)
      "maximum record size is smaller than the record header"
  ok (record {
    chunk_payload = chunk_payload;
    offset = 0;
    maximum_record_size = maximum_record_size;
  })

unfoldable pub done : RecordCursor → Bool
done cursor = cursor.offset == length cursor.chunk_payload

-- The bytes from an offset on.
unfoldable pub bytes_from : ℕ → Bytes → Bytes
bytes_from zero payload = payload
bytes_from (suc offset) [] = []
bytes_from (suc offset) (byte ∷ payload) = bytes_from offset payload

-- `read_u16` and `read_u32`, for so many bytes.
unfoldable pub read_at : ℕ → Bytes → ℕ → ℕ
read_at count payload offset = (read_bytes count 0 0 (bytes_from offset payload)).0

unfoldable pub subspan : Bytes → ℕ → ℕ → Bytes
subspan payload offset count = (split_at count (bytes_from offset payload)).0

-- The view of the record at the offset, and the cursor behind it.
abbrev pub advanced : RecordCursor → ℕ → ℕ → ℕ → Option RecordView × RecordCursor
advanced cursor type version record_size = (
  some (record {
    record_type = type;
    version = version;
    payload =
        subspan cursor.chunk_payload (cursor.offset + record_header_size)
          (record_size - record_header_size);
  }),
  record {
    chunk_payload = cursor.chunk_payload;
    offset = cursor.offset + record_size;
    maximum_record_size = cursor.maximum_record_size;
  },
)

-- What `next` does with the fields of a header, and the number of the bytes that are left.
unfoldable pub next_record :
    RecordCursor → ℕ → ℕ → ℕ → ℕ → Result (Option RecordView × RecordCursor)
next_record cursor remaining type version record_size = do
  fail_if (type == 0 || version == 0) "record type and version must not be zero"
  fail_if
      (ltb record_size record_header_size
        || ltb cursor.maximum_record_size record_size
        || ltb remaining record_size)
      "record size is invalid"
  ok (advanced cursor type version record_size)

-- `next` by the test whether the cursor is done.
abbrev pub next_of : Bool → RecordCursor → Result (Option RecordView × RecordCursor)
next_of true cursor = ok (none, cursor)
next_of false cursor = do
  fail_if (ltb (length cursor.chunk_payload - cursor.offset) record_header_size)
      "record header is truncated"
  next_record cursor (length cursor.chunk_payload - cursor.offset)
      (read_at 2 cursor.chunk_payload cursor.offset)
      (read_at 2 cursor.chunk_payload (cursor.offset + 2))
      (read_at 4 cursor.chunk_payload (cursor.offset + 4))

unfoldable pub next : RecordCursor → Result (Option RecordView × RecordCursor)
next cursor = next_of (done cursor) cursor
