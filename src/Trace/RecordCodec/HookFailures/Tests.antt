-- ===== src/Trace/RecordCodec/HookFailures/Tests.antt =====
-- The failure of a custom hook that is found again.
use noleax.Prelude.{[], ◌∷◌, ◌≡◌, refl, arith}
use noleax.Prelude.Error.{ok}
use noleax.Trace.CustomHook.{
  CustomHookFailureRole, CustomHookFailureReason, CustomHookFailure, validate_custom_hook_failure,
  validate_custom_hook_failure_lem,
}
use noleax.Trace.RecordCodec.Enumerations.{failure_role_byte, failure_reason_byte}
use noleax.Trace.RecordCodec.Restores.{Restores}
use noleax.Trace.RecordCodec.HookFailures.{
  append_custom_hook_failure_record, decode_custom_hook_failure_record,
  custom_hook_failure_fields_of,
}
use noleax.Trace.RecordCodec.HookFailures.RoundTrip.{append_custom_hook_failure_record-Restores}

abbrev no_export : CustomHookFailure
no_export = record {
  module_text = 0x61 ∷ [];
  role = CustomHookFailureRole.point;
  reason = CustomHookFailureReason.export_not_found;
  detail = 0x62 ∷ [];
}

no_export_valid : validate_custom_hook_failure no_export ≡ ok tt
no_export_valid = (validate_custom_hook_failure_lem no_export).1 ((λ e. cc, refl), (λ e. cc, refl))

append_custom_hook_failure_record-Restores_example :
    Restores
      (append_custom_hook_failure_record no_export 4096)
      decode_custom_hook_failure_record
      no_export
      4096
      []
      (1 ∷ [])
unfolding custom_hook_failure_fields_of failure_role_byte failure_reason_byte
append_custom_hook_failure_record-Restores_example =
    append_custom_hook_failure_record-Restores no_export 4096 [] (1 ∷ []) no_export_valid
      (record {
        module_text_size = omega arith;
        detail_size = omega arith;
        role = omega arith;
        reason = omega arith;
      })
      tt tt (record { in_record = omega arith; in_word = omega arith; in_chunk = omega arith })
