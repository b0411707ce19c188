-- ===== src/Trace/RecordCodec/Fields.antt =====
-- src/trace/record_codec.cpp: the headers and the payloads of the memory events, field by field.
pub mod Layout
use noleax.Trace.Bytes.{Append, ◌▷◌, append_u8, append_u16, append_u32, append_u64, append_zeros}
use noleax.Trace.PayloadReader.{
  Reader, ◌>>=◌, ◌>>◌, return, read_u32, read_u64, expect_zeros, read_as,
}
use noleax.Trace.Event.{
  EventHeader, ProcessTarget, HeapCreateEvent, HeapDestroyEvent, AllocationEvent, ReallocationEvent,
  FreeEvent, VmAllocateEvent, VmFreeEvent, MapEvent, UnmapEvent,
}
use noleax.Trace.RecordCodec.Enumerations.{
  event_status_byte, decode_event_status, error_domain_byte, decode_error_domain,
  process_scope_byte, decode_process_scope, reallocation_effect_byte, decode_reallocation_effect,
}

unfoldable pub append_event_header : EventHeader → Append
append_event_header header =
    append_u64 header.sequence
    ▷ append_u64 header.monotonic_ticks
    ▷ append_u64 header.thread_id
    ▷ append_u32 header.api_id
    ▷ append_u8 (event_status_byte header.status)
    ▷ append_u8 (error_domain_byte header.system_error.domain)
    ▷ append_u16 0
    ▷ append_u64 header.stack_id
    ▷ append_u32 header.flags
    ▷ append_u32 0
    ▷ append_u64 header.system_error.code

unfoldable pub read_event_header : Reader EventHeader
read_event_header = do
  sequence ← read_u64
  monotonic_ticks ← read_u64
  thread_id ← read_u64
  api_id ← read_u32
  status ← read_as decode_event_status
  domain ← read_as decode_error_domain
  expect_zeros 2
  stack_id ← read_u64
  flags ← read_u32
  expect_zeros 4
  code ← read_u64
  return (record {
    sequence = sequence;
    monotonic_ticks = monotonic_ticks;
    thread_id = thread_id;
    api_id = api_id;
    status = status;
    stack_id = stack_id;
    flags = flags;
    system_error = record { domain = domain; code = code };
  })

unfoldable pub append_process_target : ProcessTarget → Append
append_process_target target =
    append_u8 (process_scope_byte target.scope)
    ▷ append_zeros 7
    ▷ append_u64 target.process_handle
    ▷ append_u64 target.process_id

unfoldable pub read_process_target : Reader ProcessTarget
read_process_target = do
  scope ← read_as decode_process_scope
  expect_zeros 7
  process_handle ← read_u64
  process_id ← read_u64
  return (record { scope = scope; process_handle = process_handle; process_id = process_id })

unfoldable pub append_heap_create_event : HeapCreateEvent → Append
append_heap_create_event event =
    append_u64 event.heap_handle
    ▷ append_u64 event.heap_id
    ▷ append_u64 event.heap_flags
    ▷ append_u64 event.reserve_size
    ▷ append_u64 event.commit_size

unfoldable pub read_heap_create_event : Reader HeapCreateEvent
read_heap_create_event = do
  heap_handle ← read_u64
  heap_id ← read_u64
  heap_flags ← read_u64
  reserve_size ← read_u64
  commit_size ← read_u64
  return (record {
    heap_handle = heap_handle;
    heap_id = heap_id;
    heap_flags = heap_flags;
    reserve_size = reserve_size;
    commit_size = commit_size;
  })

unfoldable pub append_heap_destroy_event : HeapDestroyEvent → Append
append_heap_destroy_event event =
    append_u64 event.heap_handle ▷ append_u64 event.heap_id ▷ append_u64 event.raw_result

unfoldable pub read_heap_destroy_event : Reader HeapDestroyEvent
read_heap_destroy_event = do
  heap_handle ← read_u64
  heap_id ← read_u64
  raw_result ← read_u64
  return (record { heap_handle = heap_handle; heap_id = heap_id; raw_result = raw_result })

unfoldable pub append_allocation_event : AllocationEvent → Append
append_allocation_event event =
    append_u64 event.heap_handle
    ▷ append_u64 event.heap_id
    ▷ append_u64 event.requested_size
    ▷ append_u64 event.result_address
    ▷ append_u64 event.allocation_id
    ▷ append_u64 event.api_flags

unfoldable pub read_allocation_event : Reader AllocationEvent
read_allocation_event = do
  heap_handle ← read_u64
  heap_id ← read_u64
  requested_size ← read_u64
  result_address ← read_u64
  allocation_id ← read_u64
  api_flags ← read_u64
  return (record {
    heap_handle = heap_handle;
    heap_id = heap_id;
    requested_size = requested_size;
    result_address = result_address;
    allocation_id = allocation_id;
    api_flags = api_flags;
  })

unfoldable pub append_reallocation_event : ReallocationEvent → Append
append_reallocation_event event =
    append_u64 event.heap_handle
    ▷ append_u64 event.heap_id
    ▷ append_u64 event.old_address
    ▷ append_u64 event.old_allocation_id
    ▷ append_u64 event.requested_size
    ▷ append_u64 event.result_address
    ▷ append_u64 event.new_allocation_id
    ▷ append_u64 event.api_flags
    ▷ append_u8 (reallocation_effect_byte event.effect)
    ▷ append_zeros 7

unfoldable pub read_reallocation_event : Reader ReallocationEvent
read_reallocation_event = do
  heap_handle ← read_u64
  heap_id ← read_u64
  old_address ← read_u64
  old_allocation_id ← read_u64
  requested_size ← read_u64
  result_address ← read_u64
  new_allocation_id ← read_u64
  api_flags ← read_u64
  effect ← read_as decode_reallocation_effect
  expect_zeros 7
  return (record {
    heap_handle = heap_handle;
    heap_id = heap_id;
    old_address = old_address;
    old_allocation_id = old_allocation_id;
    requested_size = requested_size;
    result_address = result_address;
    new_allocation_id = new_allocation_id;
    api_flags = api_flags;
    effect = effect;
  })

unfoldable pub append_free_event : FreeEvent → Append
append_free_event event =
    append_u64 event.heap_handle
    ▷ append_u64 event.heap_id
    ▷ append_u64 event.address
    ▷ append_u64 event.allocation_id
    ▷ append_u64 event.raw_result
    ▷ append_u64 event.api_flags

unfoldable pub read_free_event : Reader FreeEvent
read_free_event = do
  heap_handle ← read_u64
  heap_id ← read_u64
  address ← read_u64
  allocation_id ← read_u64
  raw_result ← read_u64
  api_flags ← read_u64
  return (record {
    heap_handle = heap_handle;
    heap_id = heap_id;
    address = address;
    allocation_id = allocation_id;
    raw_result = raw_result;
    api_flags = api_flags;
  })
