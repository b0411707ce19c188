-- ===== src/Trace/RecordCodec/HookFailures/RoundTrip.antt =====
-- src/trace/record_codec.cpp: the records of the failures of custom hooks are restored.
use noleax.Prelude.{ℕ, ◌+◌, ◌-◌, ◌^◌, ◌<◌, false, ◌||◌, ltb, ◌≡◌, refl, ap, arith, length, []}
use noleax.Prelude.Error.{ok}
use noleax.Trace.Bytes.{Bytes}
use noleax.Trace.PayloadReader.Codes.{
  Codes, codes, Codes-last, fail_if_lem, Codes-step, Codes-resize,
}
use noleax.Trace.PayloadReader.Codes.Numbers.{Codes-u8, Codes-u32, Codes-zeros, Codes-string}
use noleax.Trace.RecordCodec.{catch_custom_hook, mapped, built_lem}
use noleax.Trace.RecordCodec.Restores.{Restores, restores, run-whole, length-Codes}
use noleax.Trace.RecordCursor.Records.{Fits}
use noleax.Trace.WireFormat.{u32_max}
use noleax.Trace.CustomHook.{CustomHookFailure, validate_custom_hook_failure}
use noleax.Trace.RecordCodec.Enumerations.{failure_role_byte, decode_failure_role}
use noleax.Trace.RecordCodec.Enumerations.Named.{
  HasFailureRoleName, HasFailureReasonName, decode-failure_role, decode-failure_reason,
}
use noleax.Trace.RecordCodec.HookFailures.{
  FailureFields, custom_hook_failure_fields_of, custom_hook_failure_of,
  append_custom_hook_failure_fields, read_custom_hook_failure_fields,
  append_custom_hook_failure_record, decode_custom_hook_failure_record,
}

-- The fields are values of their types, and the lengths fit a number of 32 bits.
pub record CustomHookFailureFieldsWidths (fields : FailureFields) : Type 0 where
  pub module_text_size : length fields.module_text < 2 ^ 32
  pub detail_size : length fields.detail < 2 ^ 32
  pub role : fields.role < 2 ^ 8
  pub reason : fields.reason < 2 ^ 8

Codes-custom_hook_failure_fields :
    (fields : FailureFields)
    → CustomHookFailureFieldsWidths fields
    → Codes
        (append_custom_hook_failure_fields fields)
        (read_custom_hook_failure_fields (16 + length fields.module_text + length fields.detail))
        fields
        (16 + length fields.module_text + length fields.detail)
unfolding append_custom_hook_failure_fields read_custom_hook_failure_fields
Codes-custom_hook_failure_fields fields widths = Codes-resize (omega arith) (
    codes _ (Codes-u32 (length fields.module_text) widths.module_text_size) (
      codes _ (Codes-u32 (length fields.detail) widths.detail_size) (
        codes _ (Codes-u8 fields.role widths.role) (
          codes _ (Codes-u8 fields.reason widths.reason) (
            codes _ (Codes-zeros 6) (
              Codes-step _ (λ left. fail_if_lem _ _ left (ground arith))
                (codes _ (Codes-string fields.module_text (length fields.module_text) refl)
                  (Codes-last _ (Codes-string fields.detail (length fields.detail) refl)))))))))

custom_hook_failure_of-fields :
    (failure : CustomHookFailure)
    → HasFailureRoleName failure.role
    → HasFailureReasonName failure.reason
    → custom_hook_failure_of (custom_hook_failure_fields_of failure) ≡ ok failure
unfolding custom_hook_failure_of custom_hook_failure_fields_of
custom_hook_failure_of-fields failure role reason =
    built_lem (decode_failure_role (failure_role_byte failure.role)) _
      (decode-failure_role failure.role role)
      (ap (mapped _) (decode-failure_reason failure.reason reason))

-- The failure of a custom hook that is valid, with fields and lengths that fit their types, with
-- names for its enumerations and with room in the chunk, is appended as a record that the cursor
-- finds and from which it is decoded again.
pub append_custom_hook_failure_record-Restores :
    (failure : CustomHookFailure) (maximum : ℕ) (chunk rest : Bytes)
    → validate_custom_hook_failure failure ≡ ok tt
    → CustomHookFailureFieldsWidths (custom_hook_failure_fields_of failure)
    → HasFailureRoleName failure.role
    → HasFailureReasonName failure.reason
    → Fits chunk (16 + length failure.module_text + length failure.detail) maximum
    → Restores
        (append_custom_hook_failure_record failure maximum)
        decode_custom_hook_failure_record
        failure
        maximum
        chunk
        rest
unfolding append_custom_hook_failure_record decode_custom_hook_failure_record
    custom_hook_failure_fields_of
append_custom_hook_failure_record-Restores failure maximum chunk rest valid widths role reason
      fits =
    let c = Codes-custom_hook_failure_fields (custom_hook_failure_fields_of failure) widths in
    let made = custom_hook_failure_of-fields failure role reason in
    let decodes =
      run-whole c catch_custom_hook "invalid CustomHookFailure record: " custom_hook_failure_of
        validate_custom_hook_failure failure made valid in
    let guard : (ltb u32_max (length failure.module_text)
          || ltb u32_max (length failure.detail)
          || ltb maximum (8 + 16)
          || ltb (maximum - 8 - 16) (length failure.module_text + length failure.detail))
        ≡ false =
      ground (arith, fits.in_record, fits.in_word) in
    restores c (append_custom_hook_failure_record failure maximum) decode_custom_hook_failure_record
      failure 3 maximum chunk rest (rw (valid, guard) refl)
      (let long : ltb
              (length
                (append_custom_hook_failure_fields (custom_hook_failure_fields_of failure) []))
              16
            ≡ false =
          ground (arith, length-Codes c) in
        rw (long, length-Codes c, decodes) refl)
      (λ e. cc) (omega arith) fits
