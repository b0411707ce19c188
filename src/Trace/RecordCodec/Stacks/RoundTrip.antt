-- ===== src/Trace/RecordCodec/Stacks/RoundTrip.antt =====
-- src/trace/record_codec.cpp: the records of stacks are restored.
use noleax.Prelude.{
  ℕ, ◌+◌, ◌-◌, ◌*◌, ◌/◌, ◌^◌, ◌<◌, true, false, ◌||◌, ltb, ◌≡◌, refl, arith, IsU64, All, length, [],
}
use noleax.Prelude.Error.{ok}
use noleax.Trace.Bytes.{Bytes}
use noleax.Trace.PayloadReader.Codes.{
  Codes, codes, Codes-last, fail_if_lem, Codes-step, Codes-each, Codes-resize,
}
use noleax.Trace.PayloadReader.Codes.Numbers.{Codes-u32, Codes-u64, Codes-zeros, Codes-u32_zeros}
use noleax.Trace.RecordCodec.{catch_stack}
use noleax.Trace.RecordCodec.Restores.{Restores, restores, run-whole, length-Codes}
use noleax.Trace.RecordCursor.Records.{Fits}
use noleax.Trace.WireFormat.{u32_max}
use noleax.Trace.Stack.{StackFrame, StackDefinition, validate_stack_definition, is_known_capture}
use noleax.Trace.RecordCodec.Enumerations.Named.{Codes-stack_capture_status}
use noleax.Trace.RecordCodec.Stacks.{
  append_stack_frame, read_stack_frame, append_stack_definition, read_stack_definition,
  append_stack_definition_record, decode_stack_definition_record,
}

-- Each field is a value of its type.
pub record StackFrameWidths (frame : StackFrame) : Type 0 where
  pub module_id : IsU64 frame.module_id
  pub module_offset : IsU64 frame.module_offset
  pub absolute_address : IsU64 frame.absolute_address
  pub flags : frame.flags < 2 ^ 32

pub Codes-stack_frame :
    (frame : StackFrame)
    → StackFrameWidths frame
    → Codes (append_stack_frame frame) read_stack_frame frame 32
unfolding append_stack_frame read_stack_frame
Codes-stack_frame frame widths = Codes-resize refl (
    codes _ (Codes-u64 frame.module_id widths.module_id) (
      codes _ (Codes-u64 frame.module_offset widths.module_offset) (
        codes _ (Codes-u64 frame.absolute_address widths.absolute_address)
          (codes _ (Codes-u32 frame.flags widths.flags) (Codes-last _ Codes-u32_zeros)))))

-- The fields are values of their types, and the lengths fit a number of 32 bits.
pub record StackDefinitionWidths (definition : StackDefinition) : Type 0 where
  pub stack_id : IsU64 definition.stack_id
  pub status : is_known_capture definition.status ≡ true
  pub frames_size : length definition.frames < 2 ^ 32
  pub frames : All StackFrameWidths definition.frames

Codes-stack_definition :
    (definition : StackDefinition)
    → StackDefinitionWidths definition
    → Codes
        (append_stack_definition definition)
        (read_stack_definition (16 + length definition.frames * 32))
        definition
        (16 + length definition.frames * 32)
unfolding append_stack_definition read_stack_definition
Codes-stack_definition definition widths = Codes-resize (omega arith) (
    codes _ (Codes-u64 definition.stack_id widths.stack_id) (
      codes _ (Codes-stack_capture_status definition.status widths.status) (
        codes _ (Codes-zeros 3) (
          codes _ (Codes-u32 (length definition.frames) widths.frames_size) (
            Codes-step _ (λ left. fail_if_lem _ _ left (ground arith))
              (Codes-last _ (
                Codes-each StackFrameWidths append_stack_frame read_stack_frame 32 Codes-stack_frame
                  definition.frames widths.frames)))))))

-- A stack that is valid, with fields and lengths that fit their types, with
-- names for its enumerations and with room in the chunk, is appended as a record that the cursor
-- finds and from which it is decoded again.
pub append_stack_definition_record-Restores :
    (definition : StackDefinition) (maximum : ℕ) (chunk rest : Bytes)
    → validate_stack_definition definition ≡ ok tt
    → StackDefinitionWidths definition
    → Fits chunk (16 + length definition.frames * 32) maximum
    → Restores
        (append_stack_definition_record definition maximum)
        decode_stack_definition_record
        definition
        maximum
        chunk
        rest
unfolding append_stack_definition_record decode_stack_definition_record
append_stack_definition_record-Restores definition maximum chunk rest valid widths fits =
    let c = Codes-stack_definition definition widths in
    let decodes =
      run-whole c catch_stack "invalid StackDefinition record: " ok validate_stack_definition
        definition refl valid in
    let guard : (ltb u32_max (length definition.frames)
          || ltb maximum (8 + 16)
          || ltb ((maximum - 8 - 16) / 32) (length definition.frames))
        ≡ false =
      ground (arith, fits.in_record, fits.in_word) in
    restores c (append_stack_definition_record definition maximum) decode_stack_definition_record
      definition 1 maximum chunk rest (rw (valid, guard) refl)
      (let long : ltb (length (append_stack_definition definition [])) 16 ≡ false =
          ground (arith, length-Codes c) in
        rw (long, length-Codes c, decodes) refl)
      (λ e. cc) (omega arith) fits
