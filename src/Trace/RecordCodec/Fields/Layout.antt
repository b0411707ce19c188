-- ===== src/Trace/RecordCodec/Fields/Layout.antt =====
-- src/trace/record_codec.cpp: the fields of the memory events are read as they were appended.
use noleax.Prelude.{◌^◌, ◌<◌, true, ◌≡◌, refl, IsU64}
use noleax.Trace.PayloadReader.Codes.{Codes, codes, Codes-last, Codes-resize}
use noleax.Trace.PayloadReader.Codes.Numbers.{
  Codes-u32, Codes-u64, Codes-zeros, Codes-u16_zeros, Codes-u32_zeros,
}
use noleax.Trace.Event.{
  EventHeader, ProcessTarget, HeapCreateEvent, HeapDestroyEvent, AllocationEvent, ReallocationEvent,
  FreeEvent,
}
use noleax.Trace.Event.Validate.{
  is_known_status, is_known_error_domain, is_known_process_scope, is_known_reallocation_effect,
}
use noleax.Trace.RecordCodec.Enumerations.Named.{
  Codes-event_status, Codes-error_domain, Codes-process_scope, Codes-reallocation_effect,
}
use noleax.Trace.RecordCodec.Fields.{
  append_event_header, read_event_header, append_process_target, read_process_target,
  append_heap_create_event, read_heap_create_event, append_heap_destroy_event,
  read_heap_destroy_event, append_allocation_event, read_allocation_event,
  append_reallocation_event, read_reallocation_event, append_free_event, read_free_event,
}

-- Each field is a value of its type, and an enumeration's has a name.
pub record EventHeaderWidths (header : EventHeader) : Type 0 where
  pub sequence : IsU64 header.sequence
  pub monotonic_ticks : IsU64 header.monotonic_ticks
  pub thread_id : IsU64 header.thread_id
  pub api_id : header.api_id < 2 ^ 32
  pub status : is_known_status header.status ≡ true
  pub domain : is_known_error_domain header.system_error.domain ≡ true
  pub stack_id : IsU64 header.stack_id
  pub flags : header.flags < 2 ^ 32
  pub code : IsU64 header.system_error.code

pub Codes-event_header :
    (header : EventHeader)
    → EventHeaderWidths header
    → Codes (append_event_header header) read_event_header header 56
unfolding append_event_header read_event_header
Codes-event_header header widths = Codes-resize refl (
    codes _ (Codes-u64 header.sequence widths.sequence) (
      codes _ (Codes-u64 header.monotonic_ticks widths.monotonic_ticks) (
        codes _ (Codes-u64 header.thread_id widths.thread_id) (
          codes _ (Codes-u32 header.api_id widths.api_id) (
            codes _ (Codes-event_status header.status widths.status) (
              codes _ (Codes-error_domain header.system_error.domain widths.domain) (
                codes _ Codes-u16_zeros (
                  codes _ (Codes-u64 header.stack_id widths.stack_id) (
                    codes _ (Codes-u32 header.flags widths.flags) (
                      codes _ Codes-u32_zeros
                        (Codes-last _ (Codes-u64 header.system_error.code widths.code))))))))))))

-- Each field is a value of its type, and an enumeration's has a name.
pub record ProcessTargetWidths (target : ProcessTarget) : Type 0 where
  pub scope : is_known_process_scope target.scope ≡ true
  pub process_handle : IsU64 target.process_handle
  pub process_id : IsU64 target.process_id

pub Codes-process_target :
    (target : ProcessTarget)
    → ProcessTargetWidths target
    → Codes (append_process_target target) read_process_target target 24
unfolding append_process_target read_process_target
Codes-process_target target widths = Codes-resize refl (
    codes _ (Codes-process_scope target.scope widths.scope) (
      codes _ (Codes-zeros 7) (
        codes _ (Codes-u64 target.process_handle widths.process_handle)
          (Codes-last _ (Codes-u64 target.process_id widths.process_id)))))

-- Each field is a value of its type.
pub record HeapCreateEventWidths (event : HeapCreateEvent) : Type 0 where
  pub heap_handle : IsU64 event.heap_handle
  pub heap_id : IsU64 event.heap_id
  pub heap_flags : IsU64 event.heap_flags
  pub reserve_size : IsU64 event.reserve_size
  pub commit_size : IsU64 event.commit_size

pub Codes-heap_create_event :
    (event : HeapCreateEvent)
    → HeapCreateEventWidths event
    → Codes (append_heap_create_event event) read_heap_create_event event 40
unfolding append_heap_create_event read_heap_create_event
Codes-heap_create_event event widths = Codes-resize refl (
    codes _ (Codes-u64 event.heap_handle widths.heap_handle) (
      codes _ (Codes-u64 event.heap_id widths.heap_id) (
        codes _ (Codes-u64 event.heap_flags widths.heap_flags) (
          codes _ (Codes-u64 event.reserve_size widths.reserve_size)
            (Codes-last _ (Codes-u64 event.commit_size widths.commit_size))))))

-- Each field is a value of its type.
pub record HeapDestroyEventWidths (event : HeapDestroyEvent) : Type 0 where
  pub heap_handle : IsU64 event.heap_handle
  pub heap_id : IsU64 event.heap_id
  pub raw_result : IsU64 event.raw_result

pub Codes-heap_destroy_event :
    (event : HeapDestroyEvent)
    → HeapDestroyEventWidths event
    → Codes (append_heap_destroy_event event) read_heap_destroy_event event 24
unfolding append_heap_destroy_event read_heap_destroy_event
Codes-heap_destroy_event event widths = Codes-resize refl (
    codes _ (Codes-u64 event.heap_handle widths.heap_handle) (
      codes _ (Codes-u64 event.heap_id widths.heap_id)
        (Codes-last _ (Codes-u64 event.raw_result widths.raw_result))))

-- Each field is a value of its type.
pub record AllocationEventWidths (event : AllocationEvent) : Type 0 where
  pub heap_handle : IsU64 event.heap_handle
  pub heap_id : IsU64 event.heap_id
  pub requested_size : IsU64 event.requested_size
  pub result_address : IsU64 event.result_address
  pub allocation_id : IsU64 event.allocation_id
  pub api_flags : IsU64 event.api_flags

pub Codes-allocation_event :
    (event : AllocationEvent)
    → AllocationEventWidths event
    → Codes (append_allocation_event event) read_allocation_event event 48
unfolding append_allocation_event read_allocation_event
Codes-allocation_event event widths = Codes-resize refl (
    codes _ (Codes-u64 event.heap_handle widths.heap_handle) (
      codes _ (Codes-u64 event.heap_id widths.heap_id) (
        codes _ (Codes-u64 event.requested_size widths.requested_size) (
          codes _ (Codes-u64 event.result_address widths.result_address) (
            codes _ (Codes-u64 event.allocation_id widths.allocation_id)
              (Codes-last _ (Codes-u64 event.api_flags widths.api_flags)))))))

-- Each field is a value of its type, and an enumeration's has a name.
pub record ReallocationEventWidths (event : ReallocationEvent) : Type 0 where
  pub heap_handle : IsU64 event.heap_handle
  pub heap_id : IsU64 event.heap_id
  pub old_address : IsU64 event.old_address
  pub old_allocation_id : IsU64 event.old_allocation_id
  pub requested_size : IsU64 event.requested_size
  pub result_address : IsU64 event.result_address
  pub new_allocation_id : IsU64 event.new_allocation_id
  pub api_flags : IsU64 event.api_flags
  pub effect : is_known_reallocation_effect event.effect ≡ true

pub Codes-reallocation_event :
    (event : ReallocationEvent)
    → ReallocationEventWidths event
    → Codes (append_reallocation_event event) read_reallocation_event event 72
unfolding append_reallocation_event read_reallocation_event
Codes-reallocation_event event widths = Codes-resize refl (
    codes _ (Codes-u64 event.heap_handle widths.heap_handle) (
      codes _ (Codes-u64 event.heap_id widths.heap_id) (
        codes _ (Codes-u64 event.old_address widths.old_address) (
          codes _ (Codes-u64 event.old_allocation_id widths.old_allocation_id) (
            codes _ (Codes-u64 event.requested_size widths.requested_size) (
              codes _ (Codes-u64 event.result_address widths.result_address) (
                codes _ (Codes-u64 event.new_allocation_id widths.new_allocation_id) (
                  codes _ (Codes-u64 event.api_flags widths.api_flags) (
                    codes _ (Codes-reallocation_effect event.effect widths.effect)
                      (Codes-last _ (Codes-zeros 7)))))))))))

-- Each field is a value of its type.
pub record FreeEventWidths (event : FreeEvent) : Type 0 where
  pub heap_handle : IsU64 event.heap_handle
  pub heap_id : IsU64 event.heap_id
  pub address : IsU64 event.address
  pub allocation_id : IsU64 event.allocation_id
  pub raw_result : IsU64 event.raw_result
  pub api_flags : IsU64 event.api_flags

pub Codes-free_event :
    (event : FreeEvent)
    → FreeEventWidths event
    → Codes (append_free_event event) read_free_event event 48
unfolding append_free_event read_free_event
Codes-free_event event widths = Codes-resize refl (
    codes _ (Codes-u64 event.heap_handle widths.heap_handle) (
      codes _ (Codes-u64 event.heap_id widths.heap_id) (
        codes _ (Codes-u64 event.address widths.address) (
          codes _ (Codes-u64 event.allocation_id widths.allocation_id) (
            codes _ (Codes-u64 event.raw_result widths.raw_result)
              (Codes-last _ (Codes-u64 event.api_flags widths.api_flags)))))))
