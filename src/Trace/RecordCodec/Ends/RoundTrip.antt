-- ===== src/Trace/RecordCodec/Ends/RoundTrip.antt =====
-- src/trace/record_codec.cpp: the record of the end of a trace is restored.
use noleax.Prelude.{ℕ, ◌^◌, ◌<◌, Option, none, some, ◌≡◌, refl, arith, IsU64}
use noleax.Prelude.Error.{ok}
use noleax.Trace.Bytes.{Bytes}
use noleax.Trace.PayloadReader.Codes.{Codes, codes, Codes-last, Codes-resize}
use noleax.Trace.PayloadReader.Codes.Numbers.{
  Codes-u32, Codes-u64, Codes-zeros, Codes-u32_zeros, Codes-bool, Codes-i32,
}
use noleax.Trace.RecordCodec.{catch_completeness}
use noleax.Trace.RecordCodec.Restores.{Restores, restores, run-whole}
use noleax.Trace.RecordCursor.Records.{Fits}
use noleax.Trace.Completeness.Tracker.{EndOfTrace, validate_end_of_trace}
use noleax.Trace.RecordCodec.Losses.{value_or, has_value}
use noleax.Trace.RecordCodec.Ends.{
  EndFields, end_of_trace_fields_of, exit_code_of, end_of_trace_of, append_end_of_trace_fields,
  read_end_of_trace_fields, append_end_of_trace_record, decode_end_of_trace_record,
}

-- The fields are values of their types, and the lengths fit a number of 32 bits.
pub record EndOfTraceFieldsWidths (fields : EndFields) : Type 0 where
  pub final_sequence : IsU64 fields.final_sequence
  pub final_monotonic_ticks : IsU64 fields.final_monotonic_ticks
  pub target_exit_code : fields.target_exit_code < 2 ^ 32
  pub completeness_mask : fields.completeness_mask < 2 ^ 32

Codes-end_of_trace_fields :
    (fields : EndFields)
    → EndOfTraceFieldsWidths fields
    → Codes (append_end_of_trace_fields fields) read_end_of_trace_fields fields (40)
unfolding append_end_of_trace_fields read_end_of_trace_fields
Codes-end_of_trace_fields fields widths = Codes-resize (omega arith) (
    codes _ (Codes-u64 fields.final_sequence widths.final_sequence) (
      codes _ (Codes-u64 fields.final_monotonic_ticks widths.final_monotonic_ticks) (
        codes _ (Codes-bool _ fields.normal_stop) (
          codes _ (Codes-bool _ fields.has_target_exit_code) (
            codes _ (Codes-zeros 6) (
              codes _ (Codes-i32 fields.target_exit_code widths.target_exit_code) (
                codes _ Codes-u32_zeros (
                  codes _ (Codes-u32 fields.completeness_mask widths.completeness_mask)
                    (Codes-last _ Codes-u32_zeros)))))))))

exit_code_lem : (code : Option ℕ) → exit_code_of (has_value code) (value_or code 0) ≡ ok code
exit_code_lem none = refl
exit_code_lem (some code) = refl

end_of_trace_of-fields : (end : EndOfTrace) → end_of_trace_of (end_of_trace_fields_of end) ≡ ok end
unfolding end_of_trace_of end_of_trace_fields_of
end_of_trace_of-fields end = rw (exit_code_lem end.target_exit_code) refl

-- An end of a trace that is valid, with fields and lengths that fit their types and with
-- room in the chunk, is appended as a record that the cursor finds and from which it is decoded
-- again.
pub append_end_of_trace_record-Restores :
    (end : EndOfTrace) (maximum : ℕ) (chunk rest : Bytes)
    → validate_end_of_trace end ≡ ok tt
    → EndOfTraceFieldsWidths (end_of_trace_fields_of end)
    → Fits chunk (40) maximum
    → Restores
        (append_end_of_trace_record end maximum)
        decode_end_of_trace_record
        end
        maximum
        chunk
        rest
unfolding append_end_of_trace_record decode_end_of_trace_record end_of_trace_fields_of
append_end_of_trace_record-Restores end maximum chunk rest valid widths fits =
    let c = Codes-end_of_trace_fields (end_of_trace_fields_of end) widths in
    let made = end_of_trace_of-fields end in
    let decodes =
      run-whole c catch_completeness "invalid EndOfTrace record: " end_of_trace_of
        validate_end_of_trace end made valid in
    restores c (append_end_of_trace_record end maximum) decode_end_of_trace_record end 1 maximum
      chunk rest (rw (valid) refl) (rw decodes refl) (λ e. cc) (omega arith) fits
