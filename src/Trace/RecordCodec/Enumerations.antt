-- ===== src/Trace/RecordCodec/Enumerations.antt =====
-- src/trace/record_codec.cpp: the bytes of the enumerations. A name's byte is the representation of
-- its value, and the decoders refuse a byte without a name.
pub mod Named
use noleax.Prelude.{ℕ, Bool, true, false, if◌then◌else◌, ◌==◌}
use noleax.Prelude.Error.{Result, ok, err, record_codec_error}
use noleax.Trace.Event.{EventStatus, SystemErrorDomain, ProcessMemoryScope, ReallocationEffect}
use noleax.Trace.Stack.{StackCaptureStatus}
use noleax.Trace.Completeness.Statistics.{LossReason, LossLocation}
use noleax.Trace.MemorySnapshot.{MemoryRegionState, MemoryRegionType, AgentMemorySampleKind}
use noleax.Trace.CustomHook.{CustomHookFailureRole, CustomHookFailureReason}
use Prim.Native.String.{String}

abbrev unsupported : {A : Type 0} → String → Result A
unsupported message = err (record_codec_error message)

unfoldable pub event_status_byte : EventStatus → ℕ
event_status_byte EventStatus.success = 0
event_status_byte EventStatus.failure = 1
event_status_byte EventStatus.unmatched = 2
event_status_byte EventStatus.preexisting = 3
event_status_byte (EventStatus.other byte) = byte

unfoldable pub decode_event_status : ℕ → Result EventStatus
decode_event_status byte =
    if byte == 0
    then ok EventStatus.success
    else if byte == 1
    then ok EventStatus.failure
    else if byte == 2
    then ok EventStatus.unmatched
    else if byte == 3
    then ok EventStatus.preexisting
    else unsupported "event status is not supported"

unfoldable pub error_domain_byte : SystemErrorDomain → ℕ
error_domain_byte SystemErrorDomain.none = 0
error_domain_byte SystemErrorDomain.win32 = 1
error_domain_byte SystemErrorDomain.nt_status = 2
error_domain_byte SystemErrorDomain.posix = 3
error_domain_byte SystemErrorDomain.mach = 4
error_domain_byte (SystemErrorDomain.other byte) = byte

unfoldable pub decode_error_domain : ℕ → Result SystemErrorDomain
decode_error_domain byte =
    if byte == 0
    then ok SystemErrorDomain.none
    else if byte == 1
    then ok SystemErrorDomain.win32
    else if byte == 2
    then ok SystemErrorDomain.nt_status
    else if byte == 3
    then ok SystemErrorDomain.posix
    else if byte == 4
    then ok SystemErrorDomain.mach
    else unsupported "event error domain is not supported"

unfoldable pub process_scope_byte : ProcessMemoryScope → ℕ
process_scope_byte ProcessMemoryScope.current_process = 0
process_scope_byte ProcessMemoryScope.remote_process = 1
process_scope_byte ProcessMemoryScope.unknown = 2
process_scope_byte (ProcessMemoryScope.other byte) = byte

unfoldable pub decode_process_scope : ℕ → Result ProcessMemoryScope
decode_process_scope byte =
    if byte == 0
    then ok ProcessMemoryScope.current_process
    else if byte == 1
    then ok ProcessMemoryScope.remote_process
    else if byte == 2
    then ok ProcessMemoryScope.unknown
    else unsupported "process memory scope is not supported"

unfoldable pub reallocation_effect_byte : ReallocationEffect → ℕ
reallocation_effect_byte ReallocationEffect.no_change = 0
reallocation_effect_byte ReallocationEffect.new_generation = 1
reallocation_effect_byte ReallocationEffect.freed = 2
reallocation_effect_byte (ReallocationEffect.other byte) = byte

unfoldable pub decode_reallocation_effect : ℕ → Result ReallocationEffect
decode_reallocation_effect byte =
    if byte == 0
    then ok ReallocationEffect.no_change
    else if byte == 1
    then ok ReallocationEffect.new_generation
    else if byte == 2
    then ok ReallocationEffect.freed
    else unsupported "reallocation effect is not supported"

unfoldable pub stack_capture_status_byte : StackCaptureStatus → ℕ
stack_capture_status_byte StackCaptureStatus.complete = 0
stack_capture_status_byte StackCaptureStatus.truncated_by_depth = 1
stack_capture_status_byte StackCaptureStatus.unwind_failed = 2
stack_capture_status_byte StackCaptureStatus.unavailable = 3
stack_capture_status_byte (StackCaptureStatus.other byte) = byte

unfoldable pub decode_stack_capture_status : ℕ → Result StackCaptureStatus
decode_stack_capture_status byte =
    if byte == 0
    then ok StackCaptureStatus.complete
    else if byte == 1
    then ok StackCaptureStatus.truncated_by_depth
    else if byte == 2
    then ok StackCaptureStatus.unwind_failed
    else if byte == 3
    then ok StackCaptureStatus.unavailable
    else unsupported "stack capture status is not supported"

unfoldable pub loss_reason_byte : LossReason → ℕ
loss_reason_byte LossReason.unknown = 0
loss_reason_byte LossReason.queue_full = 1
loss_reason_byte LossReason.trace_full = 2
loss_reason_byte LossReason.writer_error = 3
loss_reason_byte LossReason.stack_capture_failed = 4
loss_reason_byte LossReason.rotation_limit = 5
loss_reason_byte LossReason.decoder_error = 6
loss_reason_byte (LossReason.other byte) = byte

unfoldable pub decode_loss_reason : ℕ → Result LossReason
decode_loss_reason byte =
    if byte == 1
    then ok LossReason.queue_full
    else if byte == 2
    then ok LossReason.trace_full
    else if byte == 3
    then ok LossReason.writer_error
    else if byte == 4
    then ok LossReason.stack_capture_failed
    else if byte == 5
    then ok LossReason.rotation_limit
    else if byte == 6
    then ok LossReason.decoder_error
    else unsupported "loss reason is not supported"

unfoldable pub loss_location_byte : LossLocation → ℕ
loss_location_byte LossLocation.unknown = 0
loss_location_byte LossLocation.agent_queue = 1
loss_location_byte LossLocation.writer = 2
loss_location_byte LossLocation.rotation = 3
loss_location_byte LossLocation.decoder = 4
loss_location_byte (LossLocation.other byte) = byte

unfoldable pub decode_loss_location : ℕ → Result LossLocation
decode_loss_location byte =
    if byte == 1
    then ok LossLocation.agent_queue
    else if byte == 2
    then ok LossLocation.writer
    else if byte == 3
    then ok LossLocation.rotation
    else if byte == 4
    then ok LossLocation.decoder
    else unsupported "loss location is not supported"

unfoldable pub memory_region_state_byte : MemoryRegionState → ℕ
memory_region_state_byte MemoryRegionState.commit = 1
memory_region_state_byte MemoryRegionState.reserve = 2
memory_region_state_byte (MemoryRegionState.other byte) = byte

unfoldable pub decode_memory_region_state : ℕ → Result MemoryRegionState
decode_memory_region_state byte =
    if byte == 1
    then ok MemoryRegionState.commit
    else if byte == 2
    then ok MemoryRegionState.reserve
    else unsupported "memory region state is not supported"

unfoldable pub memory_region_type_byte : MemoryRegionType → ℕ
memory_region_type_byte MemoryRegionType.image = 1
memory_region_type_byte MemoryRegionType.mapped = 2
memory_region_type_byte MemoryRegionType.private = 3
memory_region_type_byte (MemoryRegionType.other byte) = byte

unfoldable pub decode_memory_region_type : ℕ → Result MemoryRegionType
decode_memory_region_type byte =
    if byte == 1
    then ok MemoryRegionType.image
    else if byte == 2
    then ok MemoryRegionType.mapped
    else if byte == 3
    then ok MemoryRegionType.private
    else unsupported "memory region type is not supported"

unfoldable pub agent_memory_sample_kind_byte : AgentMemorySampleKind → ℕ
agent_memory_sample_kind_byte AgentMemorySampleKind.periodic = 1
agent_memory_sample_kind_byte AgentMemorySampleKind.baseline_pre_init = 2
agent_memory_sample_kind_byte AgentMemorySampleKind.baseline_post_init = 3
agent_memory_sample_kind_byte (AgentMemorySampleKind.other byte) = byte

unfoldable pub decode_agent_memory_sample_kind : ℕ → Result AgentMemorySampleKind
decode_agent_memory_sample_kind byte =
    if byte == 1
    then ok AgentMemorySampleKind.periodic
    else if byte == 2
    then ok AgentMemorySampleKind.baseline_pre_init
    else if byte == 3
    then ok AgentMemorySampleKind.baseline_post_init
    else unsupported "agent memory sample kind is not supported"

unfoldable pub failure_role_byte : CustomHookFailureRole → ℕ
failure_role_byte CustomHookFailureRole.alloc = 0
failure_role_byte CustomHookFailureRole.realloc = 1
failure_role_byte CustomHookFailureRole.free = 2
failure_role_byte CustomHookFailureRole.point = 255
failure_role_byte (CustomHookFailureRole.unnamed byte) = byte

unfoldable pub decode_failure_role : ℕ → Result CustomHookFailureRole
decode_failure_role byte =
    if byte == 0
    then ok CustomHookFailureRole.alloc
    else if byte == 1
    then ok CustomHookFailureRole.realloc
    else if byte == 2
    then ok CustomHookFailureRole.free
    else if byte == 255
    then ok CustomHookFailureRole.point
    else unsupported "custom hook failure role is not supported"

unfoldable pub failure_reason_byte : CustomHookFailureReason → ℕ
failure_reason_byte CustomHookFailureReason.module_not_loaded = 1
failure_reason_byte CustomHookFailureReason.export_not_found = 2
failure_reason_byte CustomHookFailureReason.forwarded_export = 3
failure_reason_byte CustomHookFailureReason.invalid_rva = 4
failure_reason_byte CustomHookFailureReason.wrong_signature = 5
failure_reason_byte CustomHookFailureReason.image_identity_mismatch = 6
failure_reason_byte CustomHookFailureReason.backend_unavailable = 7
failure_reason_byte CustomHookFailureReason.other = 255
failure_reason_byte (CustomHookFailureReason.unnamed byte) = byte

unfoldable pub decode_failure_reason : ℕ → Result CustomHookFailureReason
decode_failure_reason byte =
    if byte == 1
    then ok CustomHookFailureReason.module_not_loaded
    else if byte == 2
    then ok CustomHookFailureReason.export_not_found
    else if byte == 3
    then ok CustomHookFailureReason.forwarded_export
    else if byte == 4
    then ok CustomHookFailureReason.invalid_rva
    else if byte == 5
    then ok CustomHookFailureReason.wrong_signature
    else if byte == 6
    then ok CustomHookFailureReason.image_identity_mismatch
    else if byte == 7
    then ok CustomHookFailureReason.backend_unavailable
    else if byte == 255
    then ok CustomHookFailureReason.other
    else unsupported "custom hook failure reason is not supported"
