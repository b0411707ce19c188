-- ===== src/Trace/RecordCodec/Hooks/RoundTrip.antt =====
-- src/trace/record_codec.cpp: the records of custom hooks are restored.
use noleax.Prelude.{ℕ, ◌+◌, ◌-◌, ◌^◌, ◌<◌, false, ◌||◌, ltb, ◌≡◌, refl, arith, length, []}
use noleax.Prelude.Error.{ok}
use noleax.Trace.Bytes.{Bytes}
use noleax.Trace.PayloadReader.Codes.{
  Codes, codes, Codes-last, fail_if_lem, Codes-step, Codes-resize,
}
use noleax.Trace.PayloadReader.Codes.Numbers.{Codes-u32, Codes-u32_zeros, Codes-string}
use noleax.Trace.RecordCodec.{catch_custom_hook}
use noleax.Trace.RecordCodec.Restores.{Restores, restores, run-whole, length-Codes}
use noleax.Trace.RecordCursor.Records.{Fits}
use noleax.Trace.WireFormat.{u32_max}
use noleax.Trace.CustomHook.{CustomHookDefinition, validate_custom_hook_definition}
use noleax.Trace.RecordCodec.Hooks.{
  append_custom_hook_definition, read_custom_hook_definition, append_custom_hook_definition_record,
  decode_custom_hook_definition_record,
}

-- The fields are values of their types, and the lengths fit a number of 32 bits.
pub record CustomHookDefinitionWidths (definition : CustomHookDefinition) : Type 0 where
  pub api_id : definition.api_id < 2 ^ 32
  pub module_name_size : length definition.module_name < 2 ^ 32
  pub label_size : length definition.label < 2 ^ 32

Codes-custom_hook_definition :
    (definition : CustomHookDefinition)
    → CustomHookDefinitionWidths definition
    → Codes
        (append_custom_hook_definition definition)
        (read_custom_hook_definition (16 + length definition.module_name + length definition.label))
        definition
        (16 + length definition.module_name + length definition.label)
unfolding append_custom_hook_definition read_custom_hook_definition
Codes-custom_hook_definition definition widths = Codes-resize (omega arith) (
    codes _ (Codes-u32 definition.api_id widths.api_id) (
      codes _ (Codes-u32 (length definition.module_name) widths.module_name_size) (
        codes _ (Codes-u32 (length definition.label) widths.label_size) (
          codes _ Codes-u32_zeros (
            Codes-step _ (λ left. fail_if_lem _ _ left (ground arith))
              (codes _ (Codes-string definition.module_name (length definition.module_name) refl)
                (Codes-last _ (Codes-string definition.label (length definition.label) refl))))))))

-- A custom hook definition that is valid, with fields and lengths that fit their types and with
-- room in the chunk, is appended as a record that the cursor finds and from which it is decoded
-- again.
pub append_custom_hook_definition_record-Restores :
    (definition : CustomHookDefinition) (maximum : ℕ) (chunk rest : Bytes)
    → validate_custom_hook_definition definition ≡ ok tt
    → CustomHookDefinitionWidths definition
    → Fits chunk (16 + length definition.module_name + length definition.label) maximum
    → Restores
        (append_custom_hook_definition_record definition maximum)
        decode_custom_hook_definition_record
        definition
        maximum
        chunk
        rest
unfolding append_custom_hook_definition_record decode_custom_hook_definition_record
append_custom_hook_definition_record-Restores definition maximum chunk rest valid widths fits =
    let c = Codes-custom_hook_definition definition widths in
    let decodes =
      run-whole c catch_custom_hook "invalid CustomHookDefinition record: " ok
        validate_custom_hook_definition definition refl valid in
    let guard : (ltb u32_max (length definition.module_name)
          || ltb u32_max (length definition.label)
          || ltb maximum (8 + 16)
          || ltb (maximum - 8 - 16) (length definition.module_name + length definition.label))
        ≡ false =
      ground (arith, fits.in_record, fits.in_word) in
    restores c (append_custom_hook_definition_record definition maximum)
      decode_custom_hook_definition_record definition 2 maximum chunk rest (rw (valid, guard) refl)
      (let long : ltb (length (append_custom_hook_definition definition [])) 16 ≡ false =
          ground (arith, length-Codes c) in
        rw (long, length-Codes c, decodes) refl)
      (λ e. cc) (omega arith) fits
