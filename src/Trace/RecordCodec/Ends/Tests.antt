-- ===== src/Trace/RecordCodec/Ends/Tests.antt =====
-- The end of a trace that is found again.
use noleax.Prelude.{[], ◌∷◌, true, some, ◌≡◌, refl, arith}
use noleax.Prelude.Error.{ok}
use noleax.Trace.Completeness.{has, issue_bit, issue_value, known_issue_mask}
use noleax.Trace.Completeness.Tracker.{EndOfTrace, validate_end_of_trace}
use noleax.Trace.RecordCodec.Restores.{Restores}
use noleax.Trace.RecordCodec.Ends.{
  append_end_of_trace_record, decode_end_of_trace_record, end_of_trace_fields_of,
}
use noleax.Trace.RecordCodec.Ends.RoundTrip.{append_end_of_trace_record-Restores}

-- The process ended with -1, and events were lost.
abbrev ended : EndOfTrace
ended = record {
  final_sequence = 50;
  final_monotonic_ticks = 900;
  normal_stop = true;
  target_exit_code = some 0xFFFFFFFF;
  aggregate_completeness = record { mask = 4 };
}

ended_valid : validate_end_of_trace ended ≡ ok tt
unfolding validate_end_of_trace has issue_bit issue_value known_issue_mask
ended_valid = refl

append_end_of_trace_record-Restores_example :
    Restores
      (append_end_of_trace_record ended 4096)
      decode_end_of_trace_record
      ended
      4096
      []
      (1 ∷ [])
unfolding end_of_trace_fields_of
append_end_of_trace_record-Restores_example =
    append_end_of_trace_record-Restores ended 4096 [] (1 ∷ []) ended_valid
      (record {
        final_sequence = omega arith;
        final_monotonic_ticks = omega arith;
        target_exit_code = omega arith;
        completeness_mask = omega arith;
      })
      (record { in_record = omega arith; in_word = omega arith; in_chunk = omega arith })
