-- ===== src/Trace/RecordCodec/Ends.antt =====
-- src/trace/record_codec.cpp: the record of the end of a trace. A signed exit code is the word with
-- its bits.
pub mod RoundTrip
mod Tests
use noleax.Prelude.{ℕ, Bool, true, false, not, ◌!=◌, Option, none, some, if◌then◌else◌, []}
use noleax.Prelude.Error.{Result, ok, err, record_codec_error}
use noleax.Trace.Bytes.{
  Bytes, Append, ◌▷◌, append_u8, append_u32, append_u64, append_i32, append_zeros,
}
use noleax.Trace.PayloadReader.{
  Reader, ◌>>=◌, ◌>>◌, return, read_u32, read_u64, read_i32, expect_zeros, decode_bool, run,
}
use noleax.Trace.RecordCodec.{record_version, catch_completeness, whole, as_record, after, mapped}
use noleax.Trace.RecordCursor.{RecordView}
use noleax.Trace.WireFormat.{append_record}
use noleax.Trace.Completeness.{from_mask}
use noleax.Trace.Completeness.Tracker.{EndOfTrace, validate_end_of_trace}
use noleax.Trace.RecordCodec.Losses.{value_or, has_value}

-- The fields of the record, as they stand in its payload.
pub record EndFields : Type 0 where
  pub final_sequence : ℕ
  pub final_monotonic_ticks : ℕ
  pub normal_stop : Bool
  pub has_target_exit_code : Bool
  pub target_exit_code : ℕ
  pub completeness_mask : ℕ

unfoldable pub end_of_trace_fields_of : EndOfTrace → EndFields
end_of_trace_fields_of end = record {
  final_sequence = end.final_sequence;
  final_monotonic_ticks = end.final_monotonic_ticks;
  normal_stop = end.normal_stop;
  has_target_exit_code = has_value end.target_exit_code;
  target_exit_code = value_or end.target_exit_code 0;
  completeness_mask = end.aggregate_completeness.mask;
}

-- `target_exit_code`, as the flag of its presence and its field give it.
abbrev pub exit_code_of : Bool → ℕ → Result (Option ℕ)
exit_code_of true code = ok (some code)
exit_code_of false code = elim (code != 0) [
  | true ↦ err (record_codec_error "absent target exit code must be zero")
  | false ↦ ok none
]

unfoldable pub end_of_trace_of : EndFields → Result EndOfTrace
end_of_trace_of fields =
    mapped
      (λ (code : Option ℕ). record {
        final_sequence = fields.final_sequence;
        final_monotonic_ticks = fields.final_monotonic_ticks;
        normal_stop = fields.normal_stop;
        target_exit_code = code;
        aggregate_completeness = from_mask fields.completeness_mask;
      })
      (exit_code_of fields.has_target_exit_code fields.target_exit_code)

unfoldable pub append_end_of_trace_fields : EndFields → Append
append_end_of_trace_fields fields =
    append_u64 fields.final_sequence
    ▷ append_u64 fields.final_monotonic_ticks
    ▷ append_u8 (if fields.normal_stop then 1 else 0)
    ▷ append_u8 (if fields.has_target_exit_code then 1 else 0)
    ▷ append_zeros 6
    ▷ append_i32 fields.target_exit_code
    ▷ append_u32 0
    ▷ append_u32 fields.completeness_mask
    ▷ append_u32 0

unfoldable pub read_end_of_trace_fields : Reader EndFields
read_end_of_trace_fields = do
  final_sequence ← read_u64
  final_monotonic_ticks ← read_u64
  normal_stop ← decode_bool "normal-stop boolean is not zero or one"
  has_target_exit_code ← decode_bool "target-exit-code presence is not zero or one"
  expect_zeros 6
  target_exit_code ← read_i32
  expect_zeros 4
  completeness_mask ← read_u32
  expect_zeros 4
  return (record {
    final_sequence = final_sequence;
    final_monotonic_ticks = final_monotonic_ticks;
    normal_stop = normal_stop;
    has_target_exit_code = has_target_exit_code;
    target_exit_code = target_exit_code;
    completeness_mask = completeness_mask;
  })

abbrev pub whole_end_of_trace : Reader EndOfTrace
whole_end_of_trace =
    whole catch_completeness "invalid EndOfTrace record: " end_of_trace_of validate_end_of_trace
      read_end_of_trace_fields

unfoldable pub append_end_of_trace_record : EndOfTrace → ℕ → Bytes → Result Bytes
append_end_of_trace_record end maximum_record_size chunk_payload =
    after (validate_end_of_trace end) (
      append_record chunk_payload 1 record_version
        (append_end_of_trace_fields (end_of_trace_fields_of end) []) maximum_record_size)

unfoldable pub decode_end_of_trace_record : RecordView → Result (Option EndOfTrace)
decode_end_of_trace_record view = as_record 1 view (run whole_end_of_trace view.payload)
