-- ===== src/Trace/Event/Validate.antt =====
-- src/trace/event.cpp: which events are valid, and which of them create or end a generation.
use noleax.Prelude.{Bool, true, false, not, ◌&&◌, ◌||◌, if◌then◌else◌, ◌==◌, ◌!=◌}
use noleax.Prelude.Error.{event_validation_error, Result, ok, ◌>>◌, throw_if}
use noleax.Trace.Identifiers.{Identifier, is_valid}
use noleax.Trace.Event.{
  EventStatus, SystemErrorDomain, ProcessMemoryScope, ReallocationEffect, EventHeader,
  ProcessTarget, HeapCreateEvent, HeapDestroyEvent, AllocationEvent, ReallocationEvent, FreeEvent,
  EventPayload, Event, is_success, is_failure, is_unmatched, is_preexisting, is_current_process,
  is_no_change, is_new_generation, is_freed,
}
use Prim.Native.String.{String}

unfoldable pub is_known_status : EventStatus → Bool
is_known_status (EventStatus.other n) = false
is_known_status _ = true

unfoldable pub is_known_error_domain : SystemErrorDomain → Bool
is_known_error_domain (SystemErrorDomain.other n) = false
is_known_error_domain _ = true

unfoldable pub is_known_process_scope : ProcessMemoryScope → Bool
is_known_process_scope (ProcessMemoryScope.other n) = false
is_known_process_scope _ = true

unfoldable pub is_known_reallocation_effect : ReallocationEffect → Bool
is_known_reallocation_effect (ReallocationEffect.other n) = false
is_known_reallocation_effect _ = true

unfoldable pub call_succeeded : EventStatus → Bool
call_succeeded status = not (is_failure status)

-- `if (test) fail(message);`
abbrev pub fail_if : Bool → String → Result (Unit {0})
fail_if test message = throw_if test (event_validation_error message)

-- The message is the one that the operation's name and the fixed text make together.
unfoldable pub validate_call_result_status : EventStatus → String → Result (Unit {0})
validate_call_result_status status message =
    fail_if (not (is_success status) && not (is_failure status)) message

abbrev is_none : SystemErrorDomain → Bool
is_none SystemErrorDomain.none = true
is_none _ = false

unfoldable pub validate_header : EventHeader → Result (Unit {0})
unfolding is_known_status is_known_error_domain
validate_header header = do
  fail_if (not (is_valid header.sequence)) "event sequence must not be zero"
  fail_if (not (is_known_status header.status)) "event status is not supported"
  fail_if (not (is_known_error_domain header.system_error.domain))
      "event error domain is not supported"
  fail_if (is_none header.system_error.domain && header.system_error.code != 0)
      "an event without an error domain must have a zero error code"

unfoldable pub validate_heap_create : EventHeader → HeapCreateEvent → Result (Unit {0})
unfolding validate_call_result_status call_succeeded
validate_heap_create header event = do
  validate_call_result_status header.status "heap create status must be success or failure"
  if call_succeeded header.status
      then fail_if (event.heap_handle == 0 || not (is_valid event.heap_id))
          "successful heap create must have a handle and heap_id"
      else fail_if (is_valid event.heap_id) "failed heap create must not have a heap_id"

-- `status == kUnmatched || status == kPreexisting`
abbrev is_unknown_origin : EventStatus → Bool
is_unknown_origin status = is_unmatched status || is_preexisting status

unfoldable pub validate_heap_destroy : EventHeader → HeapDestroyEvent → Result (Unit {0})
validate_heap_destroy header event = do
  fail_if (is_success header.status && not (is_valid event.heap_id))
      "matched successful heap destroy must have a heap_id"
  fail_if (is_unknown_origin header.status && is_valid event.heap_id)
      "unmatched or preexisting heap destroy must not have a heap_id"

unfoldable pub validate_allocation : EventHeader → AllocationEvent → Result (Unit {0})
unfolding validate_call_result_status call_succeeded
validate_allocation header event = do
  validate_call_result_status header.status "allocation status must be success or failure"
  if call_succeeded header.status
      then fail_if (event.result_address == 0 || not (is_valid event.allocation_id))
          "successful allocation must have an address and allocation_id"
      else fail_if (event.result_address != 0 || is_valid event.allocation_id)
          "failed allocation must not have a result address or allocation_id"

-- The `switch` on the effect of a successful call.
unfoldable pub validate_reallocation_effect :
    ReallocationEvent → ReallocationEffect → Result (Unit {0})
validate_reallocation_effect event ReallocationEffect.no_change =
    fail_if (event.result_address != 0 || is_valid event.new_allocation_id)
      "no-change reallocation must not have a result or new allocation_id"
validate_reallocation_effect event ReallocationEffect.new_generation = do
  fail_if (event.result_address == 0 || not (is_valid event.new_allocation_id))
      "successful reallocation must have a result and new allocation_id"
  fail_if (is_valid event.old_allocation_id && event.old_allocation_id == event.new_allocation_id)
      "reallocation generations must have different allocation IDs"
validate_reallocation_effect event ReallocationEffect.freed = do
  fail_if (not (is_valid event.old_allocation_id))
      "freeing reallocation must identify the old generation"
  fail_if (event.result_address != 0 || is_valid event.new_allocation_id)
      "freeing reallocation must not have a result or new allocation_id"
validate_reallocation_effect event (ReallocationEffect.other n) = ok tt

unfoldable pub validate_reallocation : EventHeader → ReallocationEvent → Result (Unit {0})
unfolding is_known_reallocation_effect call_succeeded validate_reallocation_effect
validate_reallocation header event = do
  fail_if (not (is_known_reallocation_effect event.effect)) "reallocation effect is not supported"
  fail_if (is_unknown_origin header.status && is_valid event.old_allocation_id)
      "unmatched or preexisting reallocation must not have an old allocation_id"
  if call_succeeded header.status
      then validate_reallocation_effect event event.effect
      else fail_if
          (not (is_no_change event.effect)
            || event.result_address != 0
            || is_valid event.new_allocation_id)
          "failed reallocation must preserve the old generation and have no new generation"

unfoldable pub validate_free : EventHeader → FreeEvent → Result (Unit {0})
validate_free header event = do
  fail_if (is_success header.status && not (is_valid event.allocation_id))
      "matched successful free must have an allocation_id"
  fail_if (is_unknown_origin header.status && is_valid event.allocation_id)
      "unmatched or preexisting free must not have an allocation_id"

unfoldable pub validate_mapping_creation :
    EventHeader → ProcessTarget → Identifier → Result (Unit {0})
unfolding is_known_process_scope call_succeeded
validate_mapping_creation header target mapping_id = do
  fail_if (not (is_known_process_scope target.scope)) "process memory scope is not supported"
  fail_if
      (not (is_success header.status)
        && not (is_failure header.status)
        && not (is_preexisting header.status))
      "mapping creation status must be success, failure, or preexisting"
  fail_if (not (call_succeeded header.status) && is_valid mapping_id)
      "failed virtual memory operation must not have a mapping_id"
  fail_if (not (is_current_process target.scope) && is_valid mapping_id)
      "non-local virtual memory events must not have a mapping_id"
  fail_if
      (call_succeeded header.status && is_current_process target.scope && not (is_valid mapping_id))
      "successful current-process mapping must have a mapping_id"

unfoldable pub validate_mapping_end : EventHeader → ProcessTarget → Identifier → Result (Unit {0})
unfolding is_known_process_scope
validate_mapping_end header target mapping_id = do
  fail_if (not (is_known_process_scope target.scope)) "process memory scope is not supported"
  fail_if (not (is_current_process target.scope) && is_valid mapping_id)
      "non-local virtual memory events must not have a mapping_id"
  fail_if (is_unknown_origin header.status && is_valid mapping_id)
      "unmatched or preexisting virtual memory event must not have a mapping_id"
  fail_if (is_success header.status && is_current_process target.scope && not (is_valid mapping_id))
      "matched successful local virtual memory event must have a mapping_id"

unfoldable pub allocation_creates_generation : EventHeader → AllocationEvent → Bool
unfolding call_succeeded
allocation_creates_generation header event =
    call_succeeded header.status && is_valid event.allocation_id

unfoldable pub reallocation_ends_old_generation : EventHeader → ReallocationEvent → Bool
unfolding call_succeeded
reallocation_ends_old_generation header event =
    call_succeeded header.status
    && is_valid event.old_allocation_id
    && (is_new_generation event.effect || is_freed event.effect)

unfoldable pub reallocation_creates_new_generation : EventHeader → ReallocationEvent → Bool
unfolding call_succeeded
reallocation_creates_new_generation header event =
    call_succeeded header.status
    && is_new_generation event.effect
    && is_valid event.new_allocation_id

unfoldable pub free_ends_generation : EventHeader → FreeEvent → Bool
unfolding call_succeeded
free_ends_generation header event = call_succeeded header.status && is_valid event.allocation_id

unfoldable pub heap_destroy_ends_generations : EventHeader → HeapDestroyEvent → Bool
unfolding call_succeeded
heap_destroy_ends_generations header event = call_succeeded header.status && is_valid event.heap_id

-- The `std::visit` of `validate_event`.
unfoldable pub validate_payload : EventHeader → EventPayload → Result (Unit {0})
validate_payload header (EventPayload.heap_create event) = validate_heap_create header event
validate_payload header (EventPayload.heap_destroy event) = validate_heap_destroy header event
validate_payload header (EventPayload.allocation event) = validate_allocation header event
validate_payload header (EventPayload.reallocation event) = validate_reallocation header event
validate_payload header (EventPayload.free event) = validate_free header event
validate_payload header (EventPayload.vm_allocate event) =
    validate_mapping_creation header event.target event.mapping_id
validate_payload header (EventPayload.vm_free event) =
    validate_mapping_end header event.target event.mapping_id
validate_payload header (EventPayload.map event) =
    validate_mapping_creation header event.target event.mapping_id
validate_payload header (EventPayload.unmap event) =
    validate_mapping_end header event.target event.mapping_id

unfoldable pub validate_event : Event → Result (Unit {0})
validate_event event = do validate_header event.header; validate_payload event.header event.payload
