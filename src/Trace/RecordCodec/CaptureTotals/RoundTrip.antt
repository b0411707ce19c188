-- ===== src/Trace/RecordCodec/CaptureTotals/RoundTrip.antt =====
-- src/trace/record_codec.cpp: the records of statistics are restored.
use noleax.Prelude.{
  ℕ, ◌+◌, ◌-◌, ◌*◌, ◌/◌, ◌^◌, ◌<◌, false, ◌||◌, ltb, ◌≡◌, refl, arith, IsU64, All, length,
}
use noleax.Prelude.Error.{ok}
use noleax.Trace.Bytes.{Bytes}
use noleax.Trace.PayloadReader.Codes.{
  Codes, codes, Codes-last, fail_if_lem, Codes-step, Codes-each, Codes-resize,
}
use noleax.Trace.PayloadReader.Codes.Numbers.{Codes-u32, Codes-u64, Codes-u32_zeros}
use noleax.Trace.RecordCodec.{catch_completeness}
use noleax.Trace.RecordCodec.Restores.{Restores, restores, run-whole, length-Codes}
use noleax.Trace.RecordCursor.Records.{Fits}
use noleax.Trace.WireFormat.{u32_max}
use noleax.Trace.Completeness.Statistics.{ApiStatistics, CaptureStatistics, validate_statistics}
use noleax.Trace.RecordCodec.CaptureTotals.{
  append_api_statistics, read_api_statistics, append_statistics, read_statistics,
  append_statistics_record, decode_statistics_record,
}

-- Each field is a value of its type.
pub record ApiStatisticsWidths (api : ApiStatistics) : Type 0 where
  pub api_id : api.api_id < 2 ^ 32
  pub observed_calls : IsU64 api.observed_calls
  pub successful_operations : IsU64 api.successful_operations
  pub failed_operations : IsU64 api.failed_operations
  pub filtered_before_queue : IsU64 api.filtered_before_queue
  pub dropped_events : IsU64 api.dropped_events

pub Codes-api_statistics :
    (api : ApiStatistics)
    → ApiStatisticsWidths api
    → Codes (append_api_statistics api) read_api_statistics api 48
unfolding append_api_statistics read_api_statistics
Codes-api_statistics api widths = Codes-resize refl (
    codes _ (Codes-u32 api.api_id widths.api_id) (
      codes _ Codes-u32_zeros (
        codes _ (Codes-u64 api.observed_calls widths.observed_calls) (
          codes _ (Codes-u64 api.successful_operations widths.successful_operations) (
            codes _ (Codes-u64 api.failed_operations widths.failed_operations) (
              codes _ (Codes-u64 api.filtered_before_queue widths.filtered_before_queue)
                (Codes-last _ (Codes-u64 api.dropped_events widths.dropped_events))))))))

-- The fields are values of their types, and the lengths fit a number of 32 bits.
pub record StatisticsWidths (statistics : CaptureStatistics) : Type 0 where
  pub observed_calls : IsU64 statistics.observed_calls
  pub successful_operations : IsU64 statistics.successful_operations
  pub failed_operations : IsU64 statistics.failed_operations
  pub filtered_before_queue : IsU64 statistics.filtered_before_queue
  pub dropped_events : IsU64 statistics.dropped_events
  pub unique_stacks : IsU64 statistics.unique_stacks
  pub reused_stacks : IsU64 statistics.reused_stacks
  pub written_uncompressed_bytes : IsU64 statistics.written_uncompressed_bytes
  pub written_stored_bytes : IsU64 statistics.written_stored_bytes
  pub per_api_size : length statistics.per_api < 2 ^ 32
  pub per_api : All ApiStatisticsWidths statistics.per_api

Codes-statistics :
    (statistics : CaptureStatistics)
    → StatisticsWidths statistics
    → Codes
        (append_statistics statistics)
        (read_statistics (80 + length statistics.per_api * 48))
        statistics
        (80 + length statistics.per_api * 48)
unfolding append_statistics read_statistics
Codes-statistics statistics widths = Codes-resize (omega arith) (
    codes _ (Codes-u64 statistics.observed_calls widths.observed_calls) (
      codes _ (Codes-u64 statistics.successful_operations widths.successful_operations) (
        codes _ (Codes-u64 statistics.failed_operations widths.failed_operations) (
          codes _ (Codes-u64 statistics.filtered_before_queue widths.filtered_before_queue) (
            codes _ (Codes-u64 statistics.dropped_events widths.dropped_events) (
              codes _ (Codes-u64 statistics.unique_stacks widths.unique_stacks) (
                codes _ (Codes-u64 statistics.reused_stacks widths.reused_stacks) (
                  codes _
                    (Codes-u64 statistics.written_uncompressed_bytes
                      widths.written_uncompressed_bytes)
                    (codes _ (Codes-u64 statistics.written_stored_bytes widths.written_stored_bytes)
                      (codes _ (Codes-u32 (length statistics.per_api) widths.per_api_size) (
                        codes _ Codes-u32_zeros (
                          Codes-step _ (λ left. fail_if_lem _ _ left (ground arith))
                            (Codes-last _ (
                              Codes-each ApiStatisticsWidths append_api_statistics
                                read_api_statistics 48 Codes-api_statistics statistics.per_api
                                widths.per_api))))))))))))))

-- A statistics record that is valid, with fields and lengths that fit their types and with
-- room in the chunk, is appended as a record that the cursor finds and from which it is decoded
-- again.
pub append_statistics_record-Restores :
    (statistics : CaptureStatistics) (maximum : ℕ) (chunk rest : Bytes)
    → validate_statistics statistics ≡ ok tt
    → StatisticsWidths statistics
    → Fits chunk (80 + length statistics.per_api * 48) maximum
    → Restores
        (append_statistics_record statistics maximum)
        decode_statistics_record
        statistics
        maximum
        chunk
        rest
unfolding append_statistics_record decode_statistics_record
append_statistics_record-Restores statistics maximum chunk rest valid widths fits =
    let c = Codes-statistics statistics widths in
    let decodes =
      run-whole c catch_completeness "invalid Statistics record: " ok validate_statistics statistics
        refl valid in
    let guard : (ltb u32_max (length statistics.per_api)
          || ltb ((u32_max - 80) / 48) (length statistics.per_api))
        ≡ false =
      ground (arith, fits.in_record, fits.in_word) in
    restores c (append_statistics_record statistics maximum) decode_statistics_record statistics 1
      maximum chunk rest (rw (valid, guard) refl) (rw (length-Codes c, decodes) refl) (λ e. cc)
      (omega arith) fits
