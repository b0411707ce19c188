-- ===== src/Trace/WireFormat.antt =====
-- include/noleax/trace/wire_format.hpp and src/trace/wire_format.cpp: the framing of records.
use noleax.Prelude.{ℕ, ◌+◌, ◌-◌, ◌%◌, ◌^◌, Bool, ◌||◌, ◌==◌, ltb, length, u64_max}
use noleax.Prelude.Error.{Result, ok, wire_format_error, throw_if, ◌>>◌}
use noleax.Trace.Bytes.{Bytes, Append, ◌▷◌, append_u16, append_u32, append_string_bytes}
use Prim.Native.String.{String}

abbrev pub record_header_size : ℕ
record_header_size = 8

abbrev pub u32_max : ℕ
u32_max = 0xFFFFFFFF

abbrev fail_if : Bool → String → Result (Unit {0})
fail_if test message = throw_if test (wire_format_error message)

-- The size of a payload as a number of 32 bits, with that of the header.
abbrev pub framed_size : Bytes → ℕ
framed_size payload = (length payload % 2 ^ 32 + record_header_size) % 2 ^ 32

unfoldable pub append_frame : ℕ → ℕ → Bytes → Append
append_frame record_type record_version payload =
    append_u16 record_type
    ▷ append_u16 record_version
    ▷ append_u32 (framed_size payload)
    ▷ append_string_bytes payload

unfoldable pub append_record : Bytes → ℕ → ℕ → Bytes → ℕ → Result Bytes
append_record chunk_payload record_type record_version payload maximum_record_size = do
  fail_if (record_type == 0) "record type must not be zero"
  fail_if (record_version == 0) "record version must not be zero"
  fail_if
      (ltb maximum_record_size record_header_size
        || ltb (maximum_record_size - record_header_size) (length payload))
      "record exceeds the configured size limit"
  fail_if (ltb (u32_max - record_header_size) (length payload)) "record size does not fit uint32"
  fail_if (ltb (u64_max - framed_size payload) (length chunk_payload)) "chunk payload size overflow"
  ok (append_frame record_type record_version payload chunk_payload)
