-- ===== src/Trace/Event.antt =====
-- include/noleax/trace/event.hpp: the events of a trace, as plain data.
-- An enumeration has a byte for its representation: `other` is a value without a name.
pub mod Validate
use noleax.Prelude.{ℕ, Bool, true, false}
use noleax.Trace.Identifiers.{Identifier}

pub data EventOperation : Type 0 where
  heap_create heap_destroy allocate reallocate free vm_allocate vm_free map unmap : EventOperation

pub data EventStatus : Type 0 where
  success failure unmatched preexisting : EventStatus
  other : ℕ → EventStatus

pub data SystemErrorDomain : Type 0 where
  none win32 nt_status posix mach : SystemErrorDomain
  other : ℕ → SystemErrorDomain

pub data ProcessMemoryScope : Type 0 where
  current_process remote_process unknown : ProcessMemoryScope
  other : ℕ → ProcessMemoryScope

pub data ReallocationEffect : Type 0 where
  no_change new_generation freed : ReallocationEffect
  other : ℕ → ReallocationEffect

pub record SystemError : Type 0 where
  pub domain : SystemErrorDomain
  pub code : ℕ

pub record EventHeader : Type 0 where
  pub sequence : Identifier
  pub monotonic_ticks : ℕ
  pub thread_id : ℕ
  pub api_id : ℕ
  pub status : EventStatus
  pub stack_id : Identifier
  pub flags : ℕ
  pub system_error : SystemError

pub record ProcessTarget : Type 0 where
  pub scope : ProcessMemoryScope
  pub process_handle : ℕ
  pub process_id : ℕ

pub record HeapCreateEvent : Type 0 where
  pub heap_handle : ℕ
  pub heap_id : Identifier
  pub heap_flags : ℕ
  pub reserve_size : ℕ
  pub commit_size : ℕ

pub record HeapDestroyEvent : Type 0 where
  pub heap_handle : ℕ
  pub heap_id : Identifier
  pub raw_result : ℕ

pub record AllocationEvent : Type 0 where
  pub heap_handle : ℕ
  pub heap_id : Identifier
  pub requested_size : ℕ
  pub result_address : ℕ
  pub allocation_id : Identifier
  pub api_flags : ℕ

pub record ReallocationEvent : Type 0 where
  pub heap_handle : ℕ
  pub heap_id : Identifier
  pub old_address : ℕ
  pub old_allocation_id : Identifier
  pub requested_size : ℕ
  pub result_address : ℕ
  pub new_allocation_id : Identifier
  pub api_flags : ℕ
  pub effect : ReallocationEffect

pub record FreeEvent : Type 0 where
  pub heap_handle : ℕ
  pub heap_id : Identifier
  pub address : ℕ
  pub allocation_id : Identifier
  pub raw_result : ℕ
  pub api_flags : ℕ

pub record VmAllocateEvent : Type 0 where
  pub target : ProcessTarget
  pub requested_base : ℕ
  pub result_base : ℕ
  pub requested_size : ℕ
  pub result_size : ℕ
  pub mapping_base : ℕ
  pub mapping_size : ℕ
  pub allocation_type : ℕ
  pub protection : ℕ
  pub mapping_id : Identifier

pub record VmFreeEvent : Type 0 where
  pub target : ProcessTarget
  pub base : ℕ
  pub region_size : ℕ
  pub free_type : ℕ
  pub mapping_id : Identifier

pub record MapEvent : Type 0 where
  pub section_handle : ℕ
  pub target : ProcessTarget
  pub result_base : ℕ
  pub view_size : ℕ
  pub section_offset : ℕ
  pub protection : ℕ
  pub mapping_id : Identifier

pub record UnmapEvent : Type 0 where
  pub target : ProcessTarget
  pub base : ℕ
  pub mapping_id : Identifier

pub data EventPayload : Type 0 where
  heap_create : HeapCreateEvent → EventPayload
  heap_destroy : HeapDestroyEvent → EventPayload
  allocation : AllocationEvent → EventPayload
  reallocation : ReallocationEvent → EventPayload
  free : FreeEvent → EventPayload
  vm_allocate : VmAllocateEvent → EventPayload
  vm_free : VmFreeEvent → EventPayload
  map : MapEvent → EventPayload
  unmap : UnmapEvent → EventPayload

pub record Event : Type 0 where
  pub header : EventHeader
  pub payload : EventPayload

unfoldable pub event_operation : EventPayload → EventOperation
event_operation (EventPayload.heap_create e) = EventOperation.heap_create
event_operation (EventPayload.heap_destroy e) = EventOperation.heap_destroy
event_operation (EventPayload.allocation e) = EventOperation.allocate
event_operation (EventPayload.reallocation e) = EventOperation.reallocate
event_operation (EventPayload.free e) = EventOperation.free
event_operation (EventPayload.vm_allocate e) = EventOperation.vm_allocate
event_operation (EventPayload.vm_free e) = EventOperation.vm_free
event_operation (EventPayload.map e) = EventOperation.map
event_operation (EventPayload.unmap e) = EventOperation.unmap

-- The tests `status == EventStatus::k...`.
abbrev pub is_success : EventStatus → Bool
is_success EventStatus.success = true
is_success _ = false

abbrev pub is_failure : EventStatus → Bool
is_failure EventStatus.failure = true
is_failure _ = false

abbrev pub is_unmatched : EventStatus → Bool
is_unmatched EventStatus.unmatched = true
is_unmatched _ = false

abbrev pub is_preexisting : EventStatus → Bool
is_preexisting EventStatus.preexisting = true
is_preexisting _ = false

-- `scope == ProcessMemoryScope::kCurrentProcess`
abbrev pub is_current_process : ProcessMemoryScope → Bool
is_current_process ProcessMemoryScope.current_process = true
is_current_process _ = false

-- `effect == ReallocationEffect::k...`
abbrev pub is_no_change : ReallocationEffect → Bool
is_no_change ReallocationEffect.no_change = true
is_no_change _ = false

abbrev pub is_new_generation : ReallocationEffect → Bool
is_new_generation ReallocationEffect.new_generation = true
is_new_generation _ = false

abbrev pub is_freed : ReallocationEffect → Bool
is_freed ReallocationEffect.freed = true
is_freed _ = false
