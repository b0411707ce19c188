-- ===== src/Trace/Stack.antt =====
-- include/noleax/trace/stack.hpp and src/trace/stack.cpp: captured stacks, and which are valid.
-- `StackCaptureStatus.other` is a byte without a name.
use noleax.Prelude.{
  ℕ, List, [], ◌∷◌, Bool, true, false, not, ◌&&◌, ◌||◌, ◌!=◌, ◌==◌, ◌≡◌, ◌≢◌, ◌↔◌, refl, All, arith,
}
use noleax.Prelude.Error.{Result, ok, stack_validation_error, throw_if, ◌>>◌}
use noleax.Trace.Identifiers.{Identifier, is_valid}
use Prim.Native.String.{String}

pub data StackCaptureStatus : Type 0 where
  complete truncated_by_depth unwind_failed unavailable : StackCaptureStatus
  other : ℕ → StackCaptureStatus

pub record StackFrame : Type 0 where
  pub module_id : Identifier
  pub module_offset : ℕ
  pub absolute_address : ℕ
  pub flags : ℕ

pub record StackDefinition : Type 0 where
  pub stack_id : Identifier
  pub status : StackCaptureStatus
  pub frames : List StackFrame

abbrev pub is_known_capture : StackCaptureStatus → Bool
is_known_capture (StackCaptureStatus.other n) = false
is_known_capture _ = true

-- `status == kComplete || status == kTruncatedByDepth`
abbrev is_captured : StackCaptureStatus → Bool
is_captured StackCaptureStatus.complete = true
is_captured StackCaptureStatus.truncated_by_depth = true
is_captured _ = false

-- `status == kUnwindFailed || status == kUnavailable`
abbrev is_unavailable : StackCaptureStatus → Bool
is_unavailable StackCaptureStatus.unwind_failed = true
is_unavailable StackCaptureStatus.unavailable = true
is_unavailable _ = false

abbrev has_frames : List StackFrame → Bool
has_frames [] = false
has_frames (frame ∷ frames) = true

-- `!=` on `bool`
abbrev differ : Bool → Bool → Bool
differ true b = not b
differ false b = b

abbrev fail_if : Bool → String → Result (Unit {0})
fail_if test message = throw_if test (stack_validation_error message)

unfoldable pub validate_frames : List StackFrame → Result (Unit {0})
validate_frames [] = ok tt
validate_frames (frame ∷ frames) = do
  fail_if (frame.absolute_address == 0) "stack frame requires a nonzero absolute address"
  fail_if (not (is_valid frame.module_id) && frame.module_offset != 0)
      "stack frame without a module must have a zero module offset"
  fail_if (frame.flags != 0) "stack frame flags are not supported in V1"
  validate_frames frames

unfoldable pub validate_stack_definition : StackDefinition → Result (Unit {0})
validate_stack_definition definition = do
  fail_if (not (is_valid definition.stack_id)) "stack definition requires a nonzero stack_id"
  fail_if (not (is_known_capture definition.status)) "stack definition status is not supported"
  fail_if (differ (is_captured definition.status) (has_frames definition.frames))
      "successful stack definition must contain frames"
  fail_if (is_unavailable definition.status && has_frames definition.frames)
      "unavailable stack definition must not contain frames"
  validate_frames definition.frames

-- A frame has an address, an offset only inside a module, and no flags.
pub IsFrame : StackFrame → Type 0
IsFrame frame =
    (frame.absolute_address ≢ 0)
    × (frame.module_id ≡ 0 → frame.module_offset ≡ 0)
    × (frame.flags ≡ 0)

-- Whether a stack with this status has frames; no stack has a status without a name.
pub HasFrames : StackCaptureStatus → List StackFrame → Type 0
HasFrames StackCaptureStatus.complete frames = frames ≢ []
HasFrames StackCaptureStatus.truncated_by_depth frames = frames ≢ []
HasFrames StackCaptureStatus.unwind_failed frames = frames ≡ []
HasFrames StackCaptureStatus.unavailable frames = frames ≡ []
HasFrames (StackCaptureStatus.other n) frames = ⊥

validate_frames_lem :
    (frames : List StackFrame) → (validate_frames frames ≡ ok tt) ↔ All IsFrame frames
unfolding validate_frames IsFrame
validate_frames_lem [] = (λ h. tt, λ h. refl)
validate_frames_lem (frame ∷ frames) =
    let rest = validate_frames_lem frames in
    (λ h. ground (arith, h, rest.0), λ h. ground (arith, h, rest.1))

status_lem :
    (status : StackCaptureStatus) (frames : List StackFrame)
    → ((not (is_known_capture status)
          || differ (is_captured status) (has_frames frames)
          || is_unavailable status && has_frames frames)
        ≡ false)
      ↔ HasFrames status frames
unfolding HasFrames
status_lem StackCaptureStatus.complete [] = (λ h. cc, λ h. absurd (h refl))
status_lem StackCaptureStatus.complete (f ∷ fs) = (λ h e. cc, λ h. refl)
status_lem StackCaptureStatus.truncated_by_depth [] = (λ h. cc, λ h. absurd (h refl))
status_lem StackCaptureStatus.truncated_by_depth (f ∷ fs) = (λ h e. cc, λ h. refl)
status_lem StackCaptureStatus.unwind_failed [] = (λ h. refl, λ h. refl)
status_lem StackCaptureStatus.unwind_failed (f ∷ fs) = (λ h. cc, λ h. cc)
status_lem StackCaptureStatus.unavailable [] = (λ h. refl, λ h. refl)
status_lem StackCaptureStatus.unavailable (f ∷ fs) = (λ h. cc, λ h. cc)
status_lem (StackCaptureStatus.other n) fs = (λ h. cc, λ h. absurd h)

-- A stack definition is accepted exactly where it has an identifier, frames where its status says
-- that it was captured and none where not, and only well-formed frames.
pub validate_stack_definition_lem :
    (d : StackDefinition)
    → (validate_stack_definition d ≡ ok tt)
      ↔ ((d.stack_id ≢ 0) × HasFrames d.status d.frames × All IsFrame d.frames)
unfolding validate_stack_definition
validate_stack_definition_lem d =
    let frames = validate_frames_lem d.frames in
    let status = status_lem d.status d.frames in
    (λ h. ground (arith, h, status.0, frames.0), λ h. ground (arith, h, status.1, frames.1))
