-- ===== src/Trace/RecordCodec/Samples/RoundTrip.antt =====
-- src/trace/record_codec.cpp: the records of one size are restored.
use noleax.Prelude.{ℕ, ◌^◌, ◌<◌, ◌≡◌, refl, arith, IsU64}
use noleax.Prelude.Error.{ok}
use noleax.Trace.Bytes.{Bytes}
use noleax.Trace.PayloadReader.Codes.{Codes, codes, Codes-last, Codes-resize}
use noleax.Trace.PayloadReader.Codes.Numbers.{Codes-u32, Codes-u64, Codes-zeros, Codes-bool}
use noleax.Trace.RecordCodec.{catch_completeness, catch_memory_snapshot}
use noleax.Trace.RecordCodec.Restores.{Restores, restores, run-whole, length-Codes}
use noleax.Trace.RecordCursor.Records.{Fits}
use noleax.Trace.Completeness.Tracker.{CaptureScope, validate_capture_scope}
use noleax.Trace.MemorySnapshot.{
  MemoryCounters, BufferConfiguration, validate_memory_counters, validate_buffer_configuration,
}
use noleax.Trace.RecordCodec.Samples.{
  append_memory_counters, decode_buffer_configuration_record, append_capture_scope_record,
  capture_scope_type, decode_capture_scope_record, append_buffer_configuration_record,
  read_capture_scope, buffer_configuration_type, read_memory_counters, append_buffer_configuration,
  append_capture_scope, read_buffer_configuration, decode_memory_counters_record,
  append_memory_counters_record, memory_counters_type,
}

-- Each field is a value of its type.
pub record MemoryCountersWidths (counters : MemoryCounters) : Type 0 where
  pub monotonic_ticks : IsU64 counters.monotonic_ticks
  pub working_set_bytes : IsU64 counters.working_set_bytes
  pub peak_working_set_bytes : IsU64 counters.peak_working_set_bytes
  pub private_bytes : IsU64 counters.private_bytes
  pub commit_bytes : IsU64 counters.commit_bytes

pub Codes-memory_counters :
    (counters : MemoryCounters)
    → MemoryCountersWidths counters
    → Codes (append_memory_counters counters) read_memory_counters counters 48
unfolding append_memory_counters read_memory_counters
Codes-memory_counters counters widths = Codes-resize refl (
    codes _ (Codes-u64 counters.monotonic_ticks widths.monotonic_ticks) (
      codes _ (Codes-u64 counters.working_set_bytes widths.working_set_bytes) (
        codes _ (Codes-u64 counters.peak_working_set_bytes widths.peak_working_set_bytes) (
          codes _ (Codes-u64 counters.private_bytes widths.private_bytes) (
            codes _ (Codes-u64 counters.commit_bytes widths.commit_bytes)
              (Codes-last _ (Codes-zeros 8)))))))

-- A sample of the memory counters that is valid, with fields and lengths that fit their types and with
-- room in the chunk, is appended as a record that the cursor finds and from which it is decoded
-- again.
pub append_memory_counters_record-Restores :
    (counters : MemoryCounters) (maximum : ℕ) (chunk rest : Bytes)
    → validate_memory_counters counters ≡ ok tt
    → MemoryCountersWidths counters
    → Fits chunk 48 maximum
    → Restores
        (append_memory_counters_record counters maximum)
        decode_memory_counters_record
        counters
        maximum
        chunk
        rest
unfolding append_memory_counters_record decode_memory_counters_record
append_memory_counters_record-Restores counters maximum chunk rest valid widths fits =
    let c = Codes-memory_counters counters widths in
    restores c (append_memory_counters_record counters maximum) decode_memory_counters_record
      counters memory_counters_type maximum chunk rest (rw valid refl)
      (rw
        (
          length-Codes c,
          run-whole c catch_memory_snapshot "invalid MemoryCounters record: " ok
              validate_memory_counters counters refl valid,
        )
        refl)
      (λ e. cc) (omega arith) fits

-- Each field is a value of its type.
pub record BufferConfigurationWidths (configuration : BufferConfiguration) : Type 0 where
  pub requested_bytes : IsU64 configuration.requested_bytes
  pub effective_slots : IsU64 configuration.effective_slots
  pub event_size : IsU64 configuration.event_size
  pub slot_size : IsU64 configuration.slot_size
  pub reserved_bytes : IsU64 configuration.reserved_bytes
  pub resident_after_init_bytes : IsU64 configuration.resident_after_init_bytes
  pub flags : configuration.flags < 2 ^ 32

pub Codes-buffer_configuration :
    (configuration : BufferConfiguration)
    → BufferConfigurationWidths configuration
    → Codes (append_buffer_configuration configuration) read_buffer_configuration configuration 56
unfolding append_buffer_configuration read_buffer_configuration
Codes-buffer_configuration configuration widths = Codes-resize refl (
    codes _ (Codes-u64 configuration.requested_bytes widths.requested_bytes) (
      codes _ (Codes-u64 configuration.effective_slots widths.effective_slots) (
        codes _ (Codes-u64 configuration.event_size widths.event_size) (
          codes _ (Codes-u64 configuration.slot_size widths.slot_size) (
            codes _ (Codes-u64 configuration.reserved_bytes widths.reserved_bytes) (
              codes _
                (Codes-u64 configuration.resident_after_init_bytes widths.resident_after_init_bytes)
                (codes _ (Codes-u32 configuration.flags widths.flags)
                  (Codes-last _ (Codes-zeros 4)))))))))

-- A buffer configuration that is valid, with fields and lengths that fit their types and with
-- room in the chunk, is appended as a record that the cursor finds and from which it is decoded
-- again.
pub append_buffer_configuration_record-Restores :
    (configuration : BufferConfiguration) (maximum : ℕ) (chunk rest : Bytes)
    → validate_buffer_configuration configuration ≡ ok tt
    → BufferConfigurationWidths configuration
    → Fits chunk 56 maximum
    → Restores
        (append_buffer_configuration_record configuration maximum)
        decode_buffer_configuration_record
        configuration
        maximum
        chunk
        rest
unfolding append_buffer_configuration_record decode_buffer_configuration_record
append_buffer_configuration_record-Restores configuration maximum chunk rest valid widths fits =
    let c = Codes-buffer_configuration configuration widths in
    restores c (append_buffer_configuration_record configuration maximum)
      decode_buffer_configuration_record configuration buffer_configuration_type maximum chunk rest
      (rw valid refl)
      (rw
        (
          length-Codes c,
          run-whole c catch_memory_snapshot "invalid BufferConfiguration record: " ok
              validate_buffer_configuration configuration refl valid,
        )
        refl)
      (λ e. cc) (omega arith) fits

pub Codes-capture_scope :
    (scope : CaptureScope) → Codes (append_capture_scope scope) read_capture_scope scope 8
unfolding append_capture_scope read_capture_scope
Codes-capture_scope scope = Codes-resize refl (
    codes _ (Codes-bool _ scope.started_at_process_start)
      (codes _ (Codes-bool _ scope.preexisting_allocations_unknown) (Codes-last _ (Codes-zeros 6))))

-- A capture scope that is valid, with fields and lengths that fit their types and with
-- room in the chunk, is appended as a record that the cursor finds and from which it is decoded
-- again.
pub append_capture_scope_record-Restores :
    (scope : CaptureScope) (maximum : ℕ) (chunk rest : Bytes)
    → validate_capture_scope scope ≡ ok tt
    → Fits chunk 8 maximum
    → Restores
        (append_capture_scope_record scope maximum)
        decode_capture_scope_record
        scope
        maximum
        chunk
        rest
unfolding append_capture_scope_record decode_capture_scope_record
append_capture_scope_record-Restores scope maximum chunk rest valid fits =
    let c = Codes-capture_scope scope in
    restores c (append_capture_scope_record scope maximum) decode_capture_scope_record scope
      capture_scope_type maximum chunk rest (rw valid refl)
      (rw
        (run-whole c catch_completeness "invalid CaptureScope record: " ok validate_capture_scope
          scope refl valid)
        refl)
      (λ e. cc) (omega arith) fits
