-- ===== src/Trace/RecordCodec/HookFailures.antt =====
-- src/trace/record_codec.cpp: the records of the failures of custom hooks.
pub mod RoundTrip
mod Tests
use noleax.Prelude.{ℕ, ◌+◌, ◌-◌, true, false, ◌||◌, not, ◌!=◌, ltb, Option, length, []}
use noleax.Prelude.Error.{Result, err, throw_if, record_codec_error}
use noleax.Trace.Bytes.{
  Bytes, Append, ◌▷◌, append_u8, append_u32, append_zeros, append_string_bytes,
}
use noleax.Trace.PayloadReader.{
  Reader, ◌>>=◌, ◌>>◌, return, read_u8, read_u32, read_string, expect_zeros, run, fail_if,
}
use noleax.Trace.RecordCodec.{
  record_version, catch_custom_hook, whole, as_record, after, mapped, built,
}
use noleax.Trace.RecordCursor.{RecordView}
use noleax.Trace.WireFormat.{append_record, u32_max}
use noleax.Trace.CustomHook.{
  CustomHookFailure, CustomHookFailureReason, validate_custom_hook_failure,
}
use noleax.Trace.RecordCodec.Enumerations.{
  failure_role_byte, decode_failure_role, failure_reason_byte, decode_failure_reason,
}

-- The fields of the record, as they stand in its payload.
pub record FailureFields : Type 0 where
  pub role : ℕ
  pub reason : ℕ
  pub module_text : Bytes
  pub detail : Bytes

unfoldable pub custom_hook_failure_fields_of : CustomHookFailure → FailureFields
custom_hook_failure_fields_of failure = record {
  role = failure_role_byte failure.role;
  reason = failure_reason_byte failure.reason;
  module_text = failure.module_text;
  detail = failure.detail;
}

-- The two `switch` statements, on the role and then on the reason.
unfoldable pub custom_hook_failure_of : FailureFields → Result CustomHookFailure
custom_hook_failure_of fields = built (decode_failure_role fields.role) (λ role.
    mapped
      (λ (reason : CustomHookFailureReason). record {
        module_text = fields.module_text;
        role = role;
        reason = reason;
        detail = fields.detail;
      })
      (decode_failure_reason fields.reason))

unfoldable pub append_custom_hook_failure_fields : FailureFields → Append
append_custom_hook_failure_fields fields =
    append_u32 (length fields.module_text)
    ▷ append_u32 (length fields.detail)
    ▷ append_u8 fields.role
    ▷ append_u8 fields.reason
    ▷ append_zeros 6
    ▷ append_string_bytes fields.module_text
    ▷ append_string_bytes fields.detail

-- The argument is the size of the whole payload.
unfoldable pub read_custom_hook_failure_fields : ℕ → Reader FailureFields
read_custom_hook_failure_fields size = do
  module_text_size ← read_u32
  detail_size ← read_u32
  role ← read_u8
  reason ← read_u8
  expect_zeros 6
  fail_if (module_text_size + detail_size != size - 16)
      "custom hook failure string sizes do not match the record payload"
  module_text ← read_string module_text_size
  detail ← read_string detail_size
  return (record { role = role; reason = reason; module_text = module_text; detail = detail })

abbrev pub whole_custom_hook_failure : ℕ → Reader CustomHookFailure
whole_custom_hook_failure size =
    whole catch_custom_hook "invalid CustomHookFailure record: " custom_hook_failure_of
      validate_custom_hook_failure (read_custom_hook_failure_fields size)

unfoldable pub append_custom_hook_failure_record : CustomHookFailure → ℕ → Bytes → Result Bytes
append_custom_hook_failure_record failure maximum_record_size chunk_payload =
    after (validate_custom_hook_failure failure) (
      after
        (throw_if
          (ltb u32_max (length failure.module_text)
            || ltb u32_max (length failure.detail)
            || ltb maximum_record_size (8 + 16)
            || ltb (maximum_record_size - 8 - 16)
                (length failure.module_text + length failure.detail))
          (record_codec_error "custom hook failure exceeds the configured record size limit"))
        (append_record chunk_payload 3 record_version
          (append_custom_hook_failure_fields (custom_hook_failure_fields_of failure) [])
          maximum_record_size))

unfoldable pub decode_custom_hook_failure_record : RecordView → Result (Option CustomHookFailure)
decode_custom_hook_failure_record view = as_record 3 view (elim (ltb (length view.payload) 16) [
  | true ↦ err (record_codec_error "custom hook failure payload is truncated")
  | false ↦ run (whole_custom_hook_failure (length view.payload)) view.payload
])
