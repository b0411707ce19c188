-- ===== src/Trace/RecordCodec/CaptureTotals/Tests.antt =====
-- A statistics record that is found again.
use noleax.Prelude.{[], ◌∷◌, ◌≡◌, refl, arith}
use noleax.Prelude.Error.{ok}
use noleax.Trace.Completeness.Statistics.{
  CaptureStatistics, validate_statistics, validate_call_counts, add_apis, add_api, checked_add,
  check_totals,
}
use noleax.Trace.RecordCodec.Restores.{Restores}
use noleax.Trace.RecordCodec.CaptureTotals.{append_statistics_record, decode_statistics_record}
use noleax.Trace.RecordCodec.CaptureTotals.RoundTrip.{append_statistics_record-Restores}

abbrev totals : CaptureStatistics
totals = record {
  observed_calls = 10;
  successful_operations = 8;
  failed_operations = 2;
  filtered_before_queue = 3;
  dropped_events = 1;
  unique_stacks = 2;
  reused_stacks = 4;
  written_uncompressed_bytes = 900;
  written_stored_bytes = 300;
  per_api =
      record {
        api_id = 1;
        observed_calls = 10;
        successful_operations = 8;
        failed_operations = 2;
        filtered_before_queue = 3;
        dropped_events = 1;
      }
      ∷ [];
}

totals_valid : validate_statistics totals ≡ ok tt
unfolding validate_statistics validate_call_counts add_apis add_api checked_add check_totals
totals_valid = refl

append_statistics_record-Restores_example :
    Restores (append_statistics_record totals 4096) decode_statistics_record totals 4096 [] (1 ∷ [])
append_statistics_record-Restores_example =
    append_statistics_record-Restores totals 4096 [] (1 ∷ []) totals_valid
      (record {
        observed_calls = omega arith;
        successful_operations = omega arith;
        failed_operations = omega arith;
        filtered_before_queue = omega arith;
        dropped_events = omega arith;
        unique_stacks = omega arith;
        reused_stacks = omega arith;
        written_uncompressed_bytes = omega arith;
        written_stored_bytes = omega arith;
        per_api_size = omega arith;
        per_api = (
          record {
            api_id = omega arith;
            observed_calls = omega arith;
            successful_operations = omega arith;
            failed_operations = omega arith;
            filtered_before_queue = omega arith;
            dropped_events = omega arith;
          },
          tt,
        );
      })
      (record { in_record = omega arith; in_word = omega arith; in_chunk = omega arith })
