-- ===== src/Trace/RecordCodec/MappingFields.antt =====
-- src/trace/record_codec.cpp: the payloads of the events on mappings, field by field.
pub mod Layout
use noleax.Trace.RecordCodec.Fields.{append_process_target, read_process_target}
use noleax.Trace.Bytes.{Append, ◌▷◌, append_u8, append_u16, append_u32, append_u64, append_zeros}
use noleax.Trace.PayloadReader.{
  Reader, ◌>>=◌, ◌>>◌, return, read_u32, read_u64, expect_zeros, read_as,
}
use noleax.Trace.Event.{
  EventHeader, ProcessTarget, HeapCreateEvent, HeapDestroyEvent, AllocationEvent, ReallocationEvent,
  FreeEvent, VmAllocateEvent, VmFreeEvent, MapEvent, UnmapEvent,
}
use noleax.Trace.RecordCodec.Enumerations.{
  event_status_byte, decode_event_status, error_domain_byte, decode_error_domain,
  process_scope_byte, decode_process_scope, reallocation_effect_byte, decode_reallocation_effect,
}

unfoldable pub append_vm_allocate_event : VmAllocateEvent → Append
append_vm_allocate_event event =
    append_process_target event.target
    ▷ append_u64 event.requested_base
    ▷ append_u64 event.result_base
    ▷ append_u64 event.requested_size
    ▷ append_u64 event.result_size
    ▷ append_u64 event.mapping_base
    ▷ append_u64 event.mapping_size
    ▷ append_u32 event.allocation_type
    ▷ append_u32 event.protection
    ▷ append_u64 event.mapping_id

unfoldable pub read_vm_allocate_event : Reader VmAllocateEvent
read_vm_allocate_event = do
  target ← read_process_target
  requested_base ← read_u64
  result_base ← read_u64
  requested_size ← read_u64
  result_size ← read_u64
  mapping_base ← read_u64
  mapping_size ← read_u64
  allocation_type ← read_u32
  protection ← read_u32
  mapping_id ← read_u64
  return (record {
    target = target;
    requested_base = requested_base;
    result_base = result_base;
    requested_size = requested_size;
    result_size = result_size;
    mapping_base = mapping_base;
    mapping_size = mapping_size;
    allocation_type = allocation_type;
    protection = protection;
    mapping_id = mapping_id;
  })

unfoldable pub append_vm_free_event : VmFreeEvent → Append
append_vm_free_event event =
    append_process_target event.target
    ▷ append_u64 event.base
    ▷ append_u64 event.region_size
    ▷ append_u32 event.free_type
    ▷ append_u32 0
    ▷ append_u64 event.mapping_id

unfoldable pub read_vm_free_event : Reader VmFreeEvent
read_vm_free_event = do
  target ← read_process_target
  base ← read_u64
  region_size ← read_u64
  free_type ← read_u32
  expect_zeros 4
  mapping_id ← read_u64
  return (record {
    target = target;
    base = base;
    region_size = region_size;
    free_type = free_type;
    mapping_id = mapping_id;
  })

unfoldable pub append_map_event : MapEvent → Append
append_map_event event =
    append_u64 event.section_handle
    ▷ append_process_target event.target
    ▷ append_u64 event.result_base
    ▷ append_u64 event.view_size
    ▷ append_u64 event.section_offset
    ▷ append_u32 event.protection
    ▷ append_u32 0
    ▷ append_u64 event.mapping_id

unfoldable pub read_map_event : Reader MapEvent
read_map_event = do
  section_handle ← read_u64
  target ← read_process_target
  result_base ← read_u64
  view_size ← read_u64
  section_offset ← read_u64
  protection ← read_u32
  expect_zeros 4
  mapping_id ← read_u64
  return (record {
    section_handle = section_handle;
    target = target;
    result_base = result_base;
    view_size = view_size;
    section_offset = section_offset;
    protection = protection;
    mapping_id = mapping_id;
  })

unfoldable pub append_unmap_event : UnmapEvent → Append
append_unmap_event event =
    append_process_target event.target ▷ append_u64 event.base ▷ append_u64 event.mapping_id

unfoldable pub read_unmap_event : Reader UnmapEvent
read_unmap_event = do
  target ← read_process_target
  base ← read_u64
  mapping_id ← read_u64
  return (record { target = target; base = base; mapping_id = mapping_id })
