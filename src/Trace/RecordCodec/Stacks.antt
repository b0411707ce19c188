-- ===== src/Trace/RecordCodec/Stacks.antt =====
-- src/trace/record_codec.cpp: the records of stacks.
pub mod RoundTrip
use noleax.Prelude.{ℕ, ◌+◌, ◌-◌, ◌*◌, ◌/◌, true, false, ◌||◌, not, ◌!=◌, ltb, Option, length, []}
use noleax.Prelude.Error.{Result, ok, err, throw_if, record_codec_error}
use noleax.Trace.Bytes.{
  Bytes, Append, ◌▷◌, append_u8, append_u32, append_u64, append_zeros, append_each,
}
use noleax.Trace.PayloadReader.{
  Reader, ◌>>=◌, ◌>>◌, return, read_u32, read_u64, expect_zeros, read_as, run, read_each, fail_if,
}
use noleax.Trace.RecordCodec.{record_version, catch_stack, whole, as_record, after}
use noleax.Trace.RecordCursor.{RecordView}
use noleax.Trace.WireFormat.{append_record, u32_max}
use noleax.Trace.Stack.{StackFrame, StackDefinition, validate_stack_definition}
use noleax.Trace.RecordCodec.Enumerations.{stack_capture_status_byte, decode_stack_capture_status}

unfoldable pub append_stack_frame : StackFrame → Append
append_stack_frame frame =
    append_u64 frame.module_id
    ▷ append_u64 frame.module_offset
    ▷ append_u64 frame.absolute_address
    ▷ append_u32 frame.flags
    ▷ append_u32 0

unfoldable pub read_stack_frame : Reader StackFrame
read_stack_frame = do
  module_id ← read_u64
  module_offset ← read_u64
  absolute_address ← read_u64
  flags ← read_u32
  expect_zeros 4
  return (record {
    module_id = module_id;
    module_offset = module_offset;
    absolute_address = absolute_address;
    flags = flags;
  })

unfoldable pub append_stack_definition : StackDefinition → Append
append_stack_definition definition =
    append_u64 definition.stack_id
    ▷ append_u8 (stack_capture_status_byte definition.status)
    ▷ append_zeros 3
    ▷ append_u32 (length definition.frames)
    ▷ append_each append_stack_frame definition.frames

-- The argument is the size of the whole payload.
unfoldable pub read_stack_definition : ℕ → Reader StackDefinition
read_stack_definition size = do
  stack_id ← read_u64
  status ← read_as decode_stack_capture_status
  expect_zeros 3
  count ← read_u32
  fail_if (ltb ((size - 16) / 32) count || 16 + count * 32 != size)
      "stack frame count does not match the record payload"
  frames ← read_each read_stack_frame count
  return (record { stack_id = stack_id; status = status; frames = frames })

abbrev pub whole_stack_definition : ℕ → Reader StackDefinition
whole_stack_definition size =
    whole catch_stack "invalid StackDefinition record: " ok validate_stack_definition
      (read_stack_definition size)

unfoldable pub append_stack_definition_record : StackDefinition → ℕ → Bytes → Result Bytes
append_stack_definition_record definition maximum_record_size chunk_payload =
    after (validate_stack_definition definition) (
      after
        (throw_if
          (ltb u32_max (length definition.frames)
            || ltb maximum_record_size (8 + 16)
            || ltb ((maximum_record_size - 8 - 16) / 32) (length definition.frames))
          (record_codec_error "stack definition exceeds the configured record size limit"))
        (append_record chunk_payload 1 record_version (append_stack_definition definition [])
          maximum_record_size))

unfoldable pub decode_stack_definition_record : RecordView → Result (Option StackDefinition)
decode_stack_definition_record view = as_record 1 view (elim (ltb (length view.payload) 16) [
  | true ↦ err (record_codec_error "stack definition payload is truncated")
  | false ↦ run (whole_stack_definition (length view.payload)) view.payload
])
