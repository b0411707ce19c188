-- ===== src/Trace/RecordCodec/Samples.antt =====
-- src/trace/record_codec.cpp: the records of one size that hold a sample of the memory counters, the
-- buffer configuration and the capture scope.
pub mod RoundTrip
use noleax.Prelude.{ℕ, true, false, not, ◌!=◌, Option, if◌then◌else◌, length, []}
use noleax.Prelude.Error.{Result, ok, err, record_codec_error}
use noleax.Trace.Bytes.{Bytes, Append, ◌▷◌, append_u8, append_u32, append_u64, append_zeros}
use noleax.Trace.PayloadReader.{
  Reader, ◌>>=◌, ◌>>◌, return, read_u32, read_u64, expect_zeros, decode_bool, run,
}
use noleax.Trace.RecordCodec.{
  record_version, catch_completeness, catch_memory_snapshot, whole, as_record, after,
}
use noleax.Trace.RecordCursor.{RecordView}
use noleax.Trace.WireFormat.{append_record}
use noleax.Trace.Completeness.Tracker.{CaptureScope, validate_capture_scope}
use noleax.Trace.MemorySnapshot.{
  MemoryCounters, BufferConfiguration, validate_memory_counters, validate_buffer_configuration,
}

abbrev pub capture_scope_type : ℕ
capture_scope_type = 1

abbrev pub buffer_configuration_type : ℕ
buffer_configuration_type = 4

abbrev pub memory_counters_type : ℕ
memory_counters_type = 1

unfoldable pub append_memory_counters : MemoryCounters → Append
append_memory_counters counters =
    append_u64 counters.monotonic_ticks
    ▷ append_u64 counters.working_set_bytes
    ▷ append_u64 counters.peak_working_set_bytes
    ▷ append_u64 counters.private_bytes
    ▷ append_u64 counters.commit_bytes
    ▷ append_zeros 8

unfoldable pub read_memory_counters : Reader MemoryCounters
read_memory_counters = do
  monotonic_ticks ← read_u64
  working_set_bytes ← read_u64
  peak_working_set_bytes ← read_u64
  private_bytes ← read_u64
  commit_bytes ← read_u64
  expect_zeros 8
  return (record {
    monotonic_ticks = monotonic_ticks;
    working_set_bytes = working_set_bytes;
    peak_working_set_bytes = peak_working_set_bytes;
    private_bytes = private_bytes;
    commit_bytes = commit_bytes;
  })

unfoldable pub append_memory_counters_record : MemoryCounters → ℕ → Bytes → Result Bytes
append_memory_counters_record counters maximum_record_size chunk_payload =
    after (validate_memory_counters counters) (
      append_record chunk_payload memory_counters_type record_version
        (append_memory_counters counters []) maximum_record_size)

abbrev pub whole_memory_counters : Reader MemoryCounters
whole_memory_counters =
    whole catch_memory_snapshot "invalid MemoryCounters record: " ok validate_memory_counters
      read_memory_counters

unfoldable pub decode_memory_counters_record : RecordView → Result (Option MemoryCounters)
decode_memory_counters_record view =
    as_record memory_counters_type view (elim (length view.payload != 48) [
      | true ↦ err (record_codec_error "memory counters payload has an invalid size")
      | false ↦ run whole_memory_counters view.payload
    ])

unfoldable pub append_buffer_configuration : BufferConfiguration → Append
append_buffer_configuration configuration =
    append_u64 configuration.requested_bytes
    ▷ append_u64 configuration.effective_slots
    ▷ append_u64 configuration.event_size
    ▷ append_u64 configuration.slot_size
    ▷ append_u64 configuration.reserved_bytes
    ▷ append_u64 configuration.resident_after_init_bytes
    ▷ append_u32 configuration.flags
    ▷ append_zeros 4

unfoldable pub read_buffer_configuration : Reader BufferConfiguration
read_buffer_configuration = do
  requested_bytes ← read_u64
  effective_slots ← read_u64
  event_size ← read_u64
  slot_size ← read_u64
  reserved_bytes ← read_u64
  resident_after_init_bytes ← read_u64
  flags ← read_u32
  expect_zeros 4
  return (record {
    requested_bytes = requested_bytes;
    effective_slots = effective_slots;
    event_size = event_size;
    slot_size = slot_size;
    reserved_bytes = reserved_bytes;
    resident_after_init_bytes = resident_after_init_bytes;
    flags = flags;
  })

unfoldable pub append_buffer_configuration_record : BufferConfiguration → ℕ → Bytes → Result Bytes
append_buffer_configuration_record configuration maximum_record_size chunk_payload =
    after (validate_buffer_configuration configuration) (
      append_record chunk_payload buffer_configuration_type record_version
        (append_buffer_configuration configuration []) maximum_record_size)

abbrev pub whole_buffer_configuration : Reader BufferConfiguration
whole_buffer_configuration =
    whole catch_memory_snapshot "invalid BufferConfiguration record: " ok
      validate_buffer_configuration read_buffer_configuration

unfoldable pub decode_buffer_configuration_record : RecordView → Result (Option BufferConfiguration)
decode_buffer_configuration_record view =
    as_record buffer_configuration_type view (elim (length view.payload != 56) [
      | true ↦ err (record_codec_error "buffer configuration payload has an invalid size")
      | false ↦ run whole_buffer_configuration view.payload
    ])

unfoldable pub append_capture_scope : CaptureScope → Append
append_capture_scope scope =
    append_u8 (if scope.started_at_process_start then 1 else 0)
    ▷ append_u8 (if scope.preexisting_allocations_unknown then 1 else 0)
    ▷ append_zeros 6

unfoldable pub read_capture_scope : Reader CaptureScope
read_capture_scope = do
  started_at_process_start ← decode_bool "capture-start boolean is not zero or one"
  preexisting_allocations_unknown ← decode_bool "preexisting-allocation boolean is not zero or one"
  expect_zeros 6
  return (record {
    started_at_process_start = started_at_process_start;
    preexisting_allocations_unknown = preexisting_allocations_unknown;
  })

unfoldable pub append_capture_scope_record : CaptureScope → ℕ → Bytes → Result Bytes
append_capture_scope_record scope maximum_record_size chunk_payload =
    after (validate_capture_scope scope) (
      append_record chunk_payload capture_scope_type record_version (append_capture_scope scope [])
        maximum_record_size)

abbrev pub whole_capture_scope : Reader CaptureScope
whole_capture_scope =
    whole catch_completeness "invalid CaptureScope record: " ok validate_capture_scope
      read_capture_scope

unfoldable pub decode_capture_scope_record : RecordView → Result (Option CaptureScope)
decode_capture_scope_record view =
    as_record capture_scope_type view (run whole_capture_scope view.payload)
