-- ===== src/Trace/RecordCodec/Hooks.antt =====
-- src/trace/record_codec.cpp: the records of custom hooks.
pub mod RoundTrip
use noleax.Prelude.{ℕ, ◌+◌, ◌-◌, true, false, ◌||◌, not, ◌!=◌, ltb, Option, length, []}
use noleax.Prelude.Error.{Result, ok, err, throw_if, record_codec_error}
use noleax.Trace.Bytes.{Bytes, Append, ◌▷◌, append_u32, append_string_bytes}
use noleax.Trace.PayloadReader.{
  Reader, ◌>>=◌, ◌>>◌, return, read_u32, read_string, expect_zeros, run, fail_if,
}
use noleax.Trace.RecordCodec.{record_version, catch_custom_hook, whole, as_record, after}
use noleax.Trace.RecordCursor.{RecordView}
use noleax.Trace.WireFormat.{append_record, u32_max}
use noleax.Trace.CustomHook.{CustomHookDefinition, validate_custom_hook_definition}

unfoldable pub append_custom_hook_definition : CustomHookDefinition → Append
append_custom_hook_definition definition =
    append_u32 definition.api_id
    ▷ append_u32 (length definition.module_name)
    ▷ append_u32 (length definition.label)
    ▷ append_u32 0
    ▷ append_string_bytes definition.module_name
    ▷ append_string_bytes definition.label

-- The argument is the size of the whole payload.
unfoldable pub read_custom_hook_definition : ℕ → Reader CustomHookDefinition
read_custom_hook_definition size = do
  api_id ← read_u32
  module_name_size ← read_u32
  label_size ← read_u32
  expect_zeros 4
  fail_if (module_name_size + label_size != size - 16)
      "custom hook definition string sizes do not match the record payload"
  module_name ← read_string module_name_size
  label ← read_string label_size
  return (record { api_id = api_id; module_name = module_name; label = label })

abbrev pub whole_custom_hook_definition : ℕ → Reader CustomHookDefinition
whole_custom_hook_definition size =
    whole catch_custom_hook "invalid CustomHookDefinition record: " ok
      validate_custom_hook_definition (read_custom_hook_definition size)

unfoldable pub append_custom_hook_definition_record :
    CustomHookDefinition → ℕ → Bytes → Result Bytes
append_custom_hook_definition_record definition maximum_record_size chunk_payload =
    after (validate_custom_hook_definition definition) (
      after
        (throw_if
          (ltb u32_max (length definition.module_name)
            || ltb u32_max (length definition.label)
            || ltb maximum_record_size (8 + 16)
            || ltb (maximum_record_size - 8 - 16)
                (length definition.module_name + length definition.label))
          (record_codec_error "custom hook definition exceeds the configured record size limit"))
        (append_record chunk_payload 2 record_version (append_custom_hook_definition definition [])
          maximum_record_size))

unfoldable pub decode_custom_hook_definition_record :
    RecordView → Result (Option CustomHookDefinition)
decode_custom_hook_definition_record view = as_record 2 view (elim (ltb (length view.payload) 16) [
  | true ↦ err (record_codec_error "custom hook definition payload is truncated")
  | false ↦ run (whole_custom_hook_definition (length view.payload)) view.payload
])
