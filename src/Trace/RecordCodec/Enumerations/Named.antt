-- ===== src/Trace/RecordCodec/Enumerations/Named.antt =====
-- src/trace/record_codec.cpp: each name of an enumeration is read back from its byte.
use mathlib.Core.Bool.{false≢true}
use noleax.Prelude.{true, ◌≡◌, refl, arith}
use noleax.Prelude.Error.{ok}
use noleax.Trace.Bytes.{append_u8}
use noleax.Trace.PayloadReader.{read_as}
use noleax.Trace.PayloadReader.Codes.{Codes}
use noleax.Trace.PayloadReader.Codes.Numbers.{Codes-as}
use noleax.Trace.Event.{EventStatus, SystemErrorDomain, ProcessMemoryScope, ReallocationEffect}
use noleax.Trace.Event.Validate.{
  is_known_status, is_known_error_domain, is_known_process_scope, is_known_reallocation_effect,
}
use noleax.Trace.Stack.{StackCaptureStatus, is_known_capture}
use noleax.Trace.Completeness.Statistics.{
  LossReason, LossLocation, is_known_loss_reason, is_known_loss_location,
}
use noleax.Trace.MemorySnapshot.{MemoryRegionState, MemoryRegionType, AgentMemorySampleKind}
use noleax.Trace.CustomHook.{CustomHookFailureRole, CustomHookFailureReason}
use noleax.Trace.RecordCodec.Enumerations.{
  event_status_byte, decode_event_status, error_domain_byte, decode_error_domain,
  process_scope_byte, decode_process_scope, reallocation_effect_byte, decode_reallocation_effect,
  stack_capture_status_byte, decode_stack_capture_status, loss_reason_byte, decode_loss_reason,
  loss_location_byte, decode_loss_location, memory_region_state_byte, decode_memory_region_state,
  memory_region_type_byte, decode_memory_region_type, agent_memory_sample_kind_byte,
  decode_agent_memory_sample_kind, failure_role_byte, decode_failure_role, failure_reason_byte,
  decode_failure_reason,
}

pub Codes-event_status :
    (v : EventStatus)
    → is_known_status v ≡ true
    → Codes (append_u8 (event_status_byte v)) (read_as decode_event_status) v 1
unfolding event_status_byte decode_event_status is_known_status
Codes-event_status EventStatus.success h =
    Codes-as decode_event_status 0 EventStatus.success (omega arith) refl
Codes-event_status EventStatus.failure h =
    Codes-as decode_event_status 1 EventStatus.failure (omega arith) refl
Codes-event_status EventStatus.unmatched h =
    Codes-as decode_event_status 2 EventStatus.unmatched (omega arith) refl
Codes-event_status EventStatus.preexisting h =
    Codes-as decode_event_status 3 EventStatus.preexisting (omega arith) refl
Codes-event_status (EventStatus.other byte) h = absurd (false≢true h)

pub Codes-error_domain :
    (v : SystemErrorDomain)
    → is_known_error_domain v ≡ true
    → Codes (append_u8 (error_domain_byte v)) (read_as decode_error_domain) v 1
unfolding error_domain_byte decode_error_domain is_known_error_domain
Codes-error_domain SystemErrorDomain.none h =
    Codes-as decode_error_domain 0 SystemErrorDomain.none (omega arith) refl
Codes-error_domain SystemErrorDomain.win32 h =
    Codes-as decode_error_domain 1 SystemErrorDomain.win32 (omega arith) refl
Codes-error_domain SystemErrorDomain.nt_status h =
    Codes-as decode_error_domain 2 SystemErrorDomain.nt_status (omega arith) refl
Codes-error_domain SystemErrorDomain.posix h =
    Codes-as decode_error_domain 3 SystemErrorDomain.posix (omega arith) refl
Codes-error_domain SystemErrorDomain.mach h =
    Codes-as decode_error_domain 4 SystemErrorDomain.mach (omega arith) refl
Codes-error_domain (SystemErrorDomain.other byte) h = absurd (false≢true h)

pub Codes-process_scope :
    (v : ProcessMemoryScope)
    → is_known_process_scope v ≡ true
    → Codes (append_u8 (process_scope_byte v)) (read_as decode_process_scope) v 1
unfolding process_scope_byte decode_process_scope is_known_process_scope
Codes-process_scope ProcessMemoryScope.current_process h =
    Codes-as decode_process_scope 0 ProcessMemoryScope.current_process (omega arith) refl
Codes-process_scope ProcessMemoryScope.remote_process h =
    Codes-as decode_process_scope 1 ProcessMemoryScope.remote_process (omega arith) refl
Codes-process_scope ProcessMemoryScope.unknown h =
    Codes-as decode_process_scope 2 ProcessMemoryScope.unknown (omega arith) refl
Codes-process_scope (ProcessMemoryScope.other byte) h = absurd (false≢true h)

pub Codes-reallocation_effect :
    (v : ReallocationEffect)
    → is_known_reallocation_effect v ≡ true
    → Codes (append_u8 (reallocation_effect_byte v)) (read_as decode_reallocation_effect) v 1
unfolding reallocation_effect_byte decode_reallocation_effect is_known_reallocation_effect
Codes-reallocation_effect ReallocationEffect.no_change h =
    Codes-as decode_reallocation_effect 0 ReallocationEffect.no_change (omega arith) refl
Codes-reallocation_effect ReallocationEffect.new_generation h =
    Codes-as decode_reallocation_effect 1 ReallocationEffect.new_generation (omega arith) refl
Codes-reallocation_effect ReallocationEffect.freed h =
    Codes-as decode_reallocation_effect 2 ReallocationEffect.freed (omega arith) refl
Codes-reallocation_effect (ReallocationEffect.other byte) h = absurd (false≢true h)

pub Codes-stack_capture_status :
    (v : StackCaptureStatus)
    → is_known_capture v ≡ true
    → Codes (append_u8 (stack_capture_status_byte v)) (read_as decode_stack_capture_status) v 1
unfolding stack_capture_status_byte decode_stack_capture_status
Codes-stack_capture_status StackCaptureStatus.complete h =
    Codes-as decode_stack_capture_status 0 StackCaptureStatus.complete (omega arith) refl
Codes-stack_capture_status StackCaptureStatus.truncated_by_depth h =
    Codes-as decode_stack_capture_status 1 StackCaptureStatus.truncated_by_depth (omega arith) refl
Codes-stack_capture_status StackCaptureStatus.unwind_failed h =
    Codes-as decode_stack_capture_status 2 StackCaptureStatus.unwind_failed (omega arith) refl
Codes-stack_capture_status StackCaptureStatus.unavailable h =
    Codes-as decode_stack_capture_status 3 StackCaptureStatus.unavailable (omega arith) refl
Codes-stack_capture_status (StackCaptureStatus.other byte) h = absurd (false≢true h)

pub Codes-loss_reason :
    (v : LossReason)
    → is_known_loss_reason v ≡ true
    → Codes (append_u8 (loss_reason_byte v)) (read_as decode_loss_reason) v 1
unfolding loss_reason_byte decode_loss_reason is_known_loss_reason
Codes-loss_reason LossReason.unknown h = absurd (false≢true h)
Codes-loss_reason LossReason.queue_full h =
    Codes-as decode_loss_reason 1 LossReason.queue_full (omega arith) refl
Codes-loss_reason LossReason.trace_full h =
    Codes-as decode_loss_reason 2 LossReason.trace_full (omega arith) refl
Codes-loss_reason LossReason.writer_error h =
    Codes-as decode_loss_reason 3 LossReason.writer_error (omega arith) refl
Codes-loss_reason LossReason.stack_capture_failed h =
    Codes-as decode_loss_reason 4 LossReason.stack_capture_failed (omega arith) refl
Codes-loss_reason LossReason.rotation_limit h =
    Codes-as decode_loss_reason 5 LossReason.rotation_limit (omega arith) refl
Codes-loss_reason LossReason.decoder_error h =
    Codes-as decode_loss_reason 6 LossReason.decoder_error (omega arith) refl
Codes-loss_reason (LossReason.other byte) h = absurd (false≢true h)

pub Codes-loss_location :
    (v : LossLocation)
    → is_known_loss_location v ≡ true
    → Codes (append_u8 (loss_location_byte v)) (read_as decode_loss_location) v 1
unfolding loss_location_byte decode_loss_location is_known_loss_location
Codes-loss_location LossLocation.unknown h = absurd (false≢true h)
Codes-loss_location LossLocation.agent_queue h =
    Codes-as decode_loss_location 1 LossLocation.agent_queue (omega arith) refl
Codes-loss_location LossLocation.writer h =
    Codes-as decode_loss_location 2 LossLocation.writer (omega arith) refl
Codes-loss_location LossLocation.rotation h =
    Codes-as decode_loss_location 3 LossLocation.rotation (omega arith) refl
Codes-loss_location LossLocation.decoder h =
    Codes-as decode_loss_location 4 LossLocation.decoder (omega arith) refl
Codes-loss_location (LossLocation.other byte) h = absurd (false≢true h)

-- A value of the enumeration with a name.
abbrev pub HasMemoryRegionStateName : MemoryRegionState → Type 0
HasMemoryRegionStateName (MemoryRegionState.other byte) = ⊥
HasMemoryRegionStateName _ = Unit {0}

pub Codes-memory_region_state :
    (v : MemoryRegionState)
    → HasMemoryRegionStateName v
    → Codes (append_u8 (memory_region_state_byte v)) (read_as decode_memory_region_state) v 1
unfolding memory_region_state_byte decode_memory_region_state
Codes-memory_region_state MemoryRegionState.commit h =
    Codes-as decode_memory_region_state 1 MemoryRegionState.commit (omega arith) refl
Codes-memory_region_state MemoryRegionState.reserve h =
    Codes-as decode_memory_region_state 2 MemoryRegionState.reserve (omega arith) refl
Codes-memory_region_state (MemoryRegionState.other byte) h = absurd h

-- A value of the enumeration with a name.
abbrev pub HasMemoryRegionTypeName : MemoryRegionType → Type 0
HasMemoryRegionTypeName (MemoryRegionType.other byte) = ⊥
HasMemoryRegionTypeName _ = Unit {0}

pub Codes-memory_region_type :
    (v : MemoryRegionType)
    → HasMemoryRegionTypeName v
    → Codes (append_u8 (memory_region_type_byte v)) (read_as decode_memory_region_type) v 1
unfolding memory_region_type_byte decode_memory_region_type
Codes-memory_region_type MemoryRegionType.image h =
    Codes-as decode_memory_region_type 1 MemoryRegionType.image (omega arith) refl
Codes-memory_region_type MemoryRegionType.mapped h =
    Codes-as decode_memory_region_type 2 MemoryRegionType.mapped (omega arith) refl
Codes-memory_region_type MemoryRegionType.private h =
    Codes-as decode_memory_region_type 3 MemoryRegionType.private (omega arith) refl
Codes-memory_region_type (MemoryRegionType.other byte) h = absurd h

-- A value of the enumeration with a name.
abbrev pub HasAgentMemorySampleKindName : AgentMemorySampleKind → Type 0
HasAgentMemorySampleKindName (AgentMemorySampleKind.other byte) = ⊥
HasAgentMemorySampleKindName _ = Unit {0}

pub Codes-agent_memory_sample_kind :
    (v : AgentMemorySampleKind)
    → HasAgentMemorySampleKindName v
    → Codes
        (append_u8 (agent_memory_sample_kind_byte v))
        (read_as decode_agent_memory_sample_kind)
        v
        1
unfolding agent_memory_sample_kind_byte decode_agent_memory_sample_kind
Codes-agent_memory_sample_kind AgentMemorySampleKind.periodic h =
    Codes-as decode_agent_memory_sample_kind 1 AgentMemorySampleKind.periodic (omega arith) refl
Codes-agent_memory_sample_kind AgentMemorySampleKind.baseline_pre_init h =
    Codes-as decode_agent_memory_sample_kind 2 AgentMemorySampleKind.baseline_pre_init (omega arith)
      refl
Codes-agent_memory_sample_kind AgentMemorySampleKind.baseline_post_init h =
    Codes-as decode_agent_memory_sample_kind 3 AgentMemorySampleKind.baseline_post_init
      (omega arith) refl
Codes-agent_memory_sample_kind (AgentMemorySampleKind.other byte) h = absurd h

-- A value of the enumeration with a name.
abbrev pub HasFailureRoleName : CustomHookFailureRole → Type 0
HasFailureRoleName (CustomHookFailureRole.unnamed byte) = ⊥
HasFailureRoleName _ = Unit {0}

pub Codes-failure_role :
    (v : CustomHookFailureRole)
    → HasFailureRoleName v
    → Codes (append_u8 (failure_role_byte v)) (read_as decode_failure_role) v 1
unfolding failure_role_byte decode_failure_role
Codes-failure_role CustomHookFailureRole.alloc h =
    Codes-as decode_failure_role 0 CustomHookFailureRole.alloc (omega arith) refl
Codes-failure_role CustomHookFailureRole.realloc h =
    Codes-as decode_failure_role 1 CustomHookFailureRole.realloc (omega arith) refl
Codes-failure_role CustomHookFailureRole.free h =
    Codes-as decode_failure_role 2 CustomHookFailureRole.free (omega arith) refl
Codes-failure_role CustomHookFailureRole.point h =
    Codes-as decode_failure_role 255 CustomHookFailureRole.point (omega arith) refl
Codes-failure_role (CustomHookFailureRole.unnamed byte) h = absurd h

-- A value of the enumeration with a name.
abbrev pub HasFailureReasonName : CustomHookFailureReason → Type 0
HasFailureReasonName (CustomHookFailureReason.unnamed byte) = ⊥
HasFailureReasonName _ = Unit {0}

pub Codes-failure_reason :
    (v : CustomHookFailureReason)
    → HasFailureReasonName v
    → Codes (append_u8 (failure_reason_byte v)) (read_as decode_failure_reason) v 1
unfolding failure_reason_byte decode_failure_reason
Codes-failure_reason CustomHookFailureReason.module_not_loaded h =
    Codes-as decode_failure_reason 1 CustomHookFailureReason.module_not_loaded (omega arith) refl
Codes-failure_reason CustomHookFailureReason.export_not_found h =
    Codes-as decode_failure_reason 2 CustomHookFailureReason.export_not_found (omega arith) refl
Codes-failure_reason CustomHookFailureReason.forwarded_export h =
    Codes-as decode_failure_reason 3 CustomHookFailureReason.forwarded_export (omega arith) refl
Codes-failure_reason CustomHookFailureReason.invalid_rva h =
    Codes-as decode_failure_reason 4 CustomHookFailureReason.invalid_rva (omega arith) refl
Codes-failure_reason CustomHookFailureReason.wrong_signature h =
    Codes-as decode_failure_reason 5 CustomHookFailureReason.wrong_signature (omega arith) refl
Codes-failure_reason CustomHookFailureReason.image_identity_mismatch h =
    Codes-as decode_failure_reason 6 CustomHookFailureReason.image_identity_mismatch (omega arith)
      refl
Codes-failure_reason CustomHookFailureReason.backend_unavailable h =
    Codes-as decode_failure_reason 7 CustomHookFailureReason.backend_unavailable (omega arith) refl
Codes-failure_reason CustomHookFailureReason.other h =
    Codes-as decode_failure_reason 255 CustomHookFailureReason.other (omega arith) refl
Codes-failure_reason (CustomHookFailureReason.unnamed byte) h = absurd h

pub decode-failure_role :
    (v : CustomHookFailureRole)
    → HasFailureRoleName v
    → decode_failure_role (failure_role_byte v) ≡ ok v
unfolding failure_role_byte decode_failure_role
decode-failure_role CustomHookFailureRole.alloc h = refl
decode-failure_role CustomHookFailureRole.realloc h = refl
decode-failure_role CustomHookFailureRole.free h = refl
decode-failure_role CustomHookFailureRole.point h = refl
decode-failure_role (CustomHookFailureRole.unnamed byte) h = absurd h

pub decode-failure_reason :
    (v : CustomHookFailureReason)
    → HasFailureReasonName v
    → decode_failure_reason (failure_reason_byte v) ≡ ok v
unfolding failure_reason_byte decode_failure_reason
decode-failure_reason CustomHookFailureReason.module_not_loaded h = refl
decode-failure_reason CustomHookFailureReason.export_not_found h = refl
decode-failure_reason CustomHookFailureReason.forwarded_export h = refl
decode-failure_reason CustomHookFailureReason.invalid_rva h = refl
decode-failure_reason CustomHookFailureReason.wrong_signature h = refl
decode-failure_reason CustomHookFailureReason.image_identity_mismatch h = refl
decode-failure_reason CustomHookFailureReason.backend_unavailable h = refl
decode-failure_reason CustomHookFailureReason.other h = refl
decode-failure_reason (CustomHookFailureReason.unnamed byte) h = absurd h
