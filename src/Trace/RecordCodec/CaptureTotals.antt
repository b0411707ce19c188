-- ===== src/Trace/RecordCodec/CaptureTotals.antt =====
-- src/trace/record_codec.cpp: the records of statistics.
pub mod RoundTrip
mod Tests
use noleax.Prelude.{ℕ, ◌-◌, ◌/◌, ◌||◌, ltb, Option, length, []}
use noleax.Prelude.Error.{Result, ok, throw_if, record_codec_error}
use noleax.Trace.Bytes.{Bytes, Append, ◌▷◌, append_u32, append_u64, append_each}
use noleax.Trace.PayloadReader.{
  Reader, ◌>>=◌, ◌>>◌, return, read_u32, read_u64, expect_zeros, run, read_each, fail_if,
}
use noleax.Trace.RecordCodec.{record_version, catch_completeness, whole, as_record, after}
use noleax.Trace.RecordCursor.{RecordView}
use noleax.Trace.WireFormat.{append_record, u32_max}
use noleax.Trace.Completeness.Statistics.{ApiStatistics, CaptureStatistics, validate_statistics}

unfoldable pub append_api_statistics : ApiStatistics → Append
append_api_statistics api =
    append_u32 api.api_id
    ▷ append_u32 0
    ▷ append_u64 api.observed_calls
    ▷ append_u64 api.successful_operations
    ▷ append_u64 api.failed_operations
    ▷ append_u64 api.filtered_before_queue
    ▷ append_u64 api.dropped_events

unfoldable pub read_api_statistics : Reader ApiStatistics
read_api_statistics = do
  api_id ← read_u32
  expect_zeros 4
  observed_calls ← read_u64
  successful_operations ← read_u64
  failed_operations ← read_u64
  filtered_before_queue ← read_u64
  dropped_events ← read_u64
  return (record {
    api_id = api_id;
    observed_calls = observed_calls;
    successful_operations = successful_operations;
    failed_operations = failed_operations;
    filtered_before_queue = filtered_before_queue;
    dropped_events = dropped_events;
  })

unfoldable pub append_statistics : CaptureStatistics → Append
append_statistics statistics =
    append_u64 statistics.observed_calls
    ▷ append_u64 statistics.successful_operations
    ▷ append_u64 statistics.failed_operations
    ▷ append_u64 statistics.filtered_before_queue
    ▷ append_u64 statistics.dropped_events
    ▷ append_u64 statistics.unique_stacks
    ▷ append_u64 statistics.reused_stacks
    ▷ append_u64 statistics.written_uncompressed_bytes
    ▷ append_u64 statistics.written_stored_bytes
    ▷ append_u32 (length statistics.per_api)
    ▷ append_u32 0
    ▷ append_each append_api_statistics statistics.per_api

-- The argument is the size of the whole payload.
unfoldable pub read_statistics : ℕ → Reader CaptureStatistics
read_statistics size = do
  observed_calls ← read_u64
  successful_operations ← read_u64
  failed_operations ← read_u64
  filtered_before_queue ← read_u64
  dropped_events ← read_u64
  unique_stacks ← read_u64
  reused_stacks ← read_u64
  written_uncompressed_bytes ← read_u64
  written_stored_bytes ← read_u64
  count ← read_u32
  expect_zeros 4
  fail_if (ltb ((size - 80) / 48) count) "per-API statistics count exceeds the record payload"
  per_api ← read_each read_api_statistics count
  return (record {
    observed_calls = observed_calls;
    successful_operations = successful_operations;
    failed_operations = failed_operations;
    filtered_before_queue = filtered_before_queue;
    dropped_events = dropped_events;
    unique_stacks = unique_stacks;
    reused_stacks = reused_stacks;
    written_uncompressed_bytes = written_uncompressed_bytes;
    written_stored_bytes = written_stored_bytes;
    per_api = per_api;
  })

abbrev pub whole_statistics : ℕ → Reader CaptureStatistics
whole_statistics size =
    whole catch_completeness "invalid Statistics record: " ok validate_statistics
      (read_statistics size)

unfoldable pub append_statistics_record : CaptureStatistics → ℕ → Bytes → Result Bytes
append_statistics_record statistics maximum_record_size chunk_payload =
    after (validate_statistics statistics) (
      after
        (throw_if
          (ltb u32_max (length statistics.per_api)
            || ltb ((u32_max - 80) / 48) (length statistics.per_api))
          (record_codec_error "too many per-API statistics entries"))
        (append_record chunk_payload 1 record_version (append_statistics statistics [])
          maximum_record_size))

unfoldable pub decode_statistics_record : RecordView → Result (Option CaptureStatistics)
decode_statistics_record view =
    as_record 1 view (run (whole_statistics (length view.payload)) view.payload)
