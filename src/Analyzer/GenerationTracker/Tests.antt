-- ===== src/Analyzer/GenerationTracker/Tests.antt =====
-- Runs of the tracker: an allocation that is resized and freed, a heap that is destroyed, and a
-- virtual region with a hole punched into it.
use noleax.Prelude.{
  ℕ, ◌+◌, List, [], ◌∷◌, ◌≡◌, ◌≢◌, refl, Option, none, some, ◌==◌, ◌&&◌, if◌then◌else◌,
}
use noleax.Prelude.Error.{Result, ok, err, generation_state_error, out_of_fuel}
use noleax.Prelude.Map.{find, emplace, erase, assign}
use noleax.Trace.Event.{
  EventStatus, SystemErrorDomain, ProcessMemoryScope, ReallocationEffect, EventHeader,
  ProcessTarget, AllocationEvent, ReallocationEvent, FreeEvent, HeapDestroyEvent, VmAllocateEvent,
  VmFreeEvent, EventPayload, Event,
}
use noleax.Trace.Event.Validate.{
  is_known_status, is_known_error_domain, is_known_process_scope, call_succeeded,
  validate_call_result_status, validate_header, validate_allocation, validate_mapping_creation,
  allocation_creates_generation, reallocation_ends_old_generation,
  reallocation_creates_new_generation, free_ends_generation, heap_destroy_ends_generations,
  validate_payload, validate_event,
}
use noleax.Trace.IntervalSet as Intervals
use noleax.Trace.IntervalSet.Reference.{IsOrdered}
use noleax.Trace.IntervalSet.Laws.{in_range}
use noleax.Analyzer.GenerationTracker.{
  MappingState, GenerationTracker, new_tracker, find_allocation, live_count,
}
use noleax.Analyzer.GenerationTracker.Allocations.{
  checked_increment, heap_ids_conflict, require_new_allocation_id, add_allocation,
  end_live_allocation, end_allocation, observe_allocation, observe_reallocation, observe_free,
  destroy_loop, observe_heap_destroy,
}
use noleax.Analyzer.GenerationTracker.Mappings.{
  require_new_mapping_id, add_mapping, close_mapping, resize_live, observe_vm_allocate,
  release_range,
}
use noleax.Analyzer.GenerationTracker.Observe.{dispatch, observe, observe_all}
use noleax.Analyzer.GenerationTracker.Valid.{IsValid}
use noleax.Analyzer.GenerationTracker.MappingEvents.{observe_all-IsValid}
use noleax.Analyzer.GenerationTracker.Fuel.{resize_live-ne-out_of_fuel}
use noleax.Analyzer.GenerationTracker.Lookup.{
  allocated, reallocated, outside_heap, find_allocation-observe_allocation,
  find_allocation-observe_free, find_allocation-observe_reallocation,
  find_allocation-observe_heap_destroy,
}
use noleax.Analyzer.GenerationTracker.Laws.{
  live_at, observe_all-count, observe_all-mapping_size, live_at-release_range, release_range_twice,
}

abbrev header : ℕ → EventHeader
header sequence = record {
  sequence = sequence;
  monotonic_ticks = 100;
  thread_id = 1;
  api_id = 1;
  status = EventStatus.success;
  stack_id = 0;
  flags = 0;
  system_error = record { domain = SystemErrorDomain.none; code = 0 };
}

abbrev event_of : ℕ → EventPayload → Event
event_of sequence payload = record { header = header sequence; payload = payload }

abbrev local : ProcessTarget
local = record { scope = ProcessMemoryScope.current_process; process_handle = 0; process_id = 7 }

abbrev allocate : AllocationEvent
allocate = record {
  heap_handle = 0x50;
  heap_id = 5;
  requested_size = 16;
  result_address = 0x1000;
  allocation_id = 1;
  api_flags = 0;
}

abbrev reserve : VmAllocateEvent
reserve = record {
  target = local;
  requested_base = 0;
  result_base = 0x10000;
  requested_size = 0x3000;
  result_size = 0x3000;
  mapping_base = 0;
  mapping_size = 0;
  allocation_type = 0x3000;
  protection = 4;
  mapping_id = 9;
}

abbrev punch : VmFreeEvent
punch = record {
  target = local;
  base = 0x11000;
  region_size = 0x1000;
  free_type = 0x8000;
  mapping_id = 9;
}

abbrev move : ReallocationEvent
move = record {
  heap_handle = 0x50;
  heap_id = 5;
  old_address = 0x1000;
  old_allocation_id = 1;
  requested_size = 32;
  result_address = 0x2000;
  new_allocation_id = 2;
  api_flags = 0;
  effect = ReallocationEffect.new_generation;
}

abbrev free_event : FreeEvent
free_event = record {
  heap_handle = 0x50;
  heap_id = 5;
  address = 0x1000;
  allocation_id = 1;
  raw_result = 1;
  api_flags = 0;
}

abbrev destroy : HeapDestroyEvent
destroy = record { heap_handle = 0x50; heap_id = 5; raw_result = 1 }

abbrev allocate_event : Event
allocate_event = event_of 1 (EventPayload.allocation allocate)

abbrev reserve_event : Event
reserve_event = event_of 2 (EventPayload.vm_allocate reserve)

abbrev punch_event : Event
punch_event = event_of 3 (EventPayload.vm_free punch)

abbrev move_event : Event
move_event = event_of 4 (EventPayload.reallocation move)

abbrev freed_event : Event
freed_event = event_of 5 (EventPayload.free free_event)

abbrev destroy_event : Event
destroy_event = event_of 6 (EventPayload.heap_destroy destroy)

abbrev tracker_of : Result GenerationTracker → GenerationTracker
tracker_of (ok t) = t
tracker_of (err e) = new_tracker

abbrev started : List Event
started = allocate_event ∷ reserve_event ∷ []

abbrev running : GenerationTracker
running = tracker_of (observe_all new_tracker started)

started_ok : observe_all new_tracker started ≡ ok running
unfolding observe_all observe dispatch validate_event validate_header validate_payload
    is_known_status is_known_error_domain is_known_process_scope validate_allocation
    validate_mapping_creation validate_call_result_status call_succeeded observe_allocation
    allocation_creates_generation add_allocation require_new_allocation_id checked_increment
    observe_vm_allocate add_mapping require_new_mapping_id find
started_ok = refl

running-IsValid : IsValid running
running-IsValid = observe_all-IsValid started running started_ok

observe_all-IsValid_example : IsValid running
observe_all-IsValid_example = observe_all-IsValid started running started_ok

observe_all-count_example : running.created_count ≡ running.ended_count + live_count running
observe_all-count_example = observe_all-count started running started_ok

abbrev state_of : Option MappingState → MappingState
state_of (some s) = s
state_of none = record { generation = allocated allocate_event allocate; live = [] }

abbrev reserved : MappingState
reserved = state_of (find 9 running.live_mappings)

reserved_found : find 9 running.live_mappings ≡ some reserved
unfolding observe_all observe dispatch validate_event validate_header validate_payload
    is_known_status is_known_error_domain is_known_process_scope validate_allocation
    validate_mapping_creation validate_call_result_status call_succeeded observe_allocation
    allocation_creates_generation add_allocation require_new_allocation_id checked_increment
    observe_vm_allocate add_mapping require_new_mapping_id find emplace
reserved_found = refl

observe_all-mapping_size_example :
    (reserved.generation.mapping_id ≡ 9)
    × IsOrdered 0 reserved.live
    × (reserved.generation.size ≡ Intervals.total_bytes reserved.live)
observe_all-mapping_size_example =
    observe_all-mapping_size started running 9 reserved started_ok reserved_found

abbrev punched : GenerationTracker
punched = tracker_of (release_range running punch_event punch reserved)

punched_ok : release_range running punch_event punch reserved ≡ ok punched
unfolding observe_all observe dispatch validate_event validate_header validate_payload
    is_known_status is_known_error_domain is_known_process_scope validate_allocation
    validate_mapping_creation validate_call_result_status call_succeeded observe_allocation
    allocation_creates_generation add_allocation require_new_allocation_id checked_increment
    observe_vm_allocate add_mapping require_new_mapping_id find emplace assign release_range
    close_mapping Intervals.insert Intervals.subtract Intervals.emplace Intervals.range_start
    Intervals.back_up Intervals.upper_bound Intervals.lower_bound Intervals.subtract_loop
    Intervals.empty Intervals.total_bytes Intervals.total_from
punched_ok = refl

abbrev left : MappingState
left = state_of (find 9 punched.live_mappings)

left_found : find 9 punched.live_mappings ≡ some left
unfolding observe_all observe dispatch validate_event validate_header validate_payload
    is_known_status is_known_error_domain is_known_process_scope validate_allocation
    validate_mapping_creation validate_call_result_status call_succeeded observe_allocation
    allocation_creates_generation add_allocation require_new_allocation_id checked_increment
    observe_vm_allocate add_mapping require_new_mapping_id find emplace assign release_range
    close_mapping Intervals.insert Intervals.subtract Intervals.emplace Intervals.range_start
    Intervals.back_up Intervals.upper_bound Intervals.lower_bound Intervals.subtract_loop
    Intervals.empty Intervals.total_bytes Intervals.total_from
left_found = refl

live_at-release_range_example :
    live_at punched 9 0x11800
    ≡ (if 9 == 9 && in_range 0x11000 0x12000 0x11800 then none else live_at running 9 0x11800)
live_at-release_range_example =
    live_at-release_range running punched punch_event punch reserved 9 0x11800 running-IsValid
      reserved_found punched_ok

release_range_twice_example :
    release_range punched punch_event punch left
    ≡ err (generation_state_error "mapping free matches no live fragment of its mapping_id")
release_range_twice_example =
    release_range_twice running punched punch_event punch_event punch reserved left running-IsValid
      reserved_found punched_ok left_found

abbrev allocated_tracker : GenerationTracker
allocated_tracker = tracker_of (observe_allocation new_tracker allocate_event allocate)

allocated_ok : observe_allocation new_tracker allocate_event allocate ≡ ok allocated_tracker
unfolding observe_allocation allocation_creates_generation call_succeeded add_allocation
    require_new_allocation_id checked_increment find emplace
allocated_ok = refl

find_allocation-observe_allocation_example : find_allocation allocated_tracker 1 ≡ (
    if allocation_creates_generation (header 1) allocate && 1 == 1
    then some (allocated allocate_event allocate)
    else find_allocation new_tracker 1)
find_allocation-observe_allocation_example =
    find_allocation-observe_allocation new_tracker allocated_tracker allocate_event allocate 1
      allocated_ok

abbrev freed_tracker : GenerationTracker
freed_tracker = tracker_of (observe_free running freed_event free_event)

freed_ok : observe_free running freed_event free_event ≡ ok freed_tracker
unfolding observe_all observe dispatch validate_event validate_header validate_payload
    is_known_status is_known_error_domain is_known_process_scope validate_allocation
    validate_mapping_creation validate_call_result_status call_succeeded observe_allocation
    allocation_creates_generation add_allocation require_new_allocation_id checked_increment
    observe_vm_allocate add_mapping require_new_mapping_id find emplace erase observe_free
    free_ends_generation end_allocation end_live_allocation heap_ids_conflict
freed_ok = refl

find_allocation-observe_free_example : find_allocation freed_tracker 1 ≡ (
    if free_ends_generation (header 5) free_event && 1 == 1
    then none
    else find_allocation running 1)
find_allocation-observe_free_example =
    find_allocation-observe_free running freed_tracker freed_event free_event 1 running-IsValid
      freed_ok

abbrev moved_tracker : GenerationTracker
moved_tracker = tracker_of (observe_reallocation running move_event move)

moved_ok : observe_reallocation running move_event move ≡ ok moved_tracker
unfolding observe_all observe dispatch validate_event validate_header validate_payload
    is_known_status is_known_error_domain is_known_process_scope validate_allocation
    validate_mapping_creation validate_call_result_status call_succeeded observe_allocation
    allocation_creates_generation add_allocation require_new_allocation_id checked_increment
    observe_vm_allocate add_mapping require_new_mapping_id find emplace erase observe_reallocation
    reallocation_ends_old_generation reallocation_creates_new_generation end_allocation
    end_live_allocation heap_ids_conflict
moved_ok = refl

find_allocation-observe_reallocation_example : find_allocation moved_tracker 2 ≡ (
    if reallocation_creates_new_generation (header 4) move && 2 == 2
    then some (reallocated move_event move)
    else if reallocation_ends_old_generation (header 4) move && 1 == 2
    then none
    else find_allocation running 2)
find_allocation-observe_reallocation_example =
    find_allocation-observe_reallocation running moved_tracker move_event move 2 running-IsValid
      moved_ok

abbrev destroyed_tracker : GenerationTracker
destroyed_tracker = tracker_of (observe_heap_destroy running destroy_event destroy)

destroyed_ok : observe_heap_destroy running destroy_event destroy ≡ ok destroyed_tracker
unfolding observe_all observe dispatch validate_event validate_header validate_payload
    is_known_status is_known_error_domain is_known_process_scope validate_allocation
    validate_mapping_creation validate_call_result_status call_succeeded observe_allocation
    allocation_creates_generation add_allocation require_new_allocation_id checked_increment
    observe_vm_allocate add_mapping require_new_mapping_id find emplace erase observe_heap_destroy
    heap_destroy_ends_generations destroy_loop
destroyed_ok = refl

find_allocation-observe_heap_destroy_example : find_allocation destroyed_tracker 1 ≡ (
    if heap_destroy_ends_generations (header 6) destroy
    then outside_heap 5 (find_allocation running 1)
    else find_allocation running 1)
find_allocation-observe_heap_destroy_example =
    find_allocation-observe_heap_destroy running destroyed_tracker destroy_event destroy 1
      running-IsValid destroyed_ok

resize_live-ne-out_of_fuel_example : resize_live reserved.live 0x10000 0x5000 ≢ err out_of_fuel
resize_live-ne-out_of_fuel_example =
    resize_live-ne-out_of_fuel reserved.live 0x10000 0x5000
      (observe_all-mapping_size started running 9 reserved started_ok reserved_found).1
