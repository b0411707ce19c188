-- ===== src/Trace/RecordCodec/Events.antt =====
-- src/trace/record_codec.cpp: the records of an event chunk.
pub mod RoundTrip
use noleax.Prelude.{ℕ, not, ◌==◌, Option, none, some, if◌then◌else◌, []}
use noleax.Prelude.Error.{Result, ok, err, record_codec_error}
use noleax.Trace.Bytes.{Bytes, Append, ◌▷◌}
use noleax.Trace.PayloadReader.{Reader, ◌>>=◌, ◌>>◌, return, attempt, run}
use noleax.Trace.RecordCodec.{record_version, catch_event, whole, as_record, after, mapped}
use noleax.Trace.RecordCursor.{RecordView}
use noleax.Trace.WireFormat.{append_record}
use noleax.Trace.Event.{EventPayload, Event}
use noleax.Trace.Event.Validate.{validate_event}
use noleax.Trace.Completeness.Statistics.{LossRecord}
use noleax.Trace.RecordCodec.Fields.{
  append_event_header, read_event_header, append_heap_create_event, read_heap_create_event,
  append_heap_destroy_event, read_heap_destroy_event, append_allocation_event,
  read_allocation_event, append_reallocation_event, read_reallocation_event, append_free_event,
  read_free_event,
}
use noleax.Trace.RecordCodec.MappingFields.{
  append_vm_allocate_event, read_vm_allocate_event, append_vm_free_event, read_vm_free_event,
  append_map_event, read_map_event, append_unmap_event, read_unmap_event,
}
use noleax.Trace.RecordCodec.Losses.{has_value, whole_loss}

pub data EventRecordType : Type 0 where
  heap_create heap_destroy allocate reallocate free vm_allocate vm_free map unmap loss :
      EventRecordType

-- `static_cast<std::uint16_t>(type)`
unfoldable pub record_type_number : EventRecordType → ℕ
record_type_number EventRecordType.heap_create = 1
record_type_number EventRecordType.heap_destroy = 2
record_type_number EventRecordType.allocate = 3
record_type_number EventRecordType.reallocate = 4
record_type_number EventRecordType.free = 5
record_type_number EventRecordType.vm_allocate = 6
record_type_number EventRecordType.vm_free = 7
record_type_number EventRecordType.map = 8
record_type_number EventRecordType.unmap = 9
record_type_number EventRecordType.loss = 10

unfoldable pub event_record_type : EventPayload → EventRecordType
event_record_type (EventPayload.heap_create event) = EventRecordType.heap_create
event_record_type (EventPayload.heap_destroy event) = EventRecordType.heap_destroy
event_record_type (EventPayload.allocation event) = EventRecordType.allocate
event_record_type (EventPayload.reallocation event) = EventRecordType.reallocate
event_record_type (EventPayload.free event) = EventRecordType.free
event_record_type (EventPayload.vm_allocate event) = EventRecordType.vm_allocate
event_record_type (EventPayload.vm_free event) = EventRecordType.vm_free
event_record_type (EventPayload.map event) = EventRecordType.map
event_record_type (EventPayload.unmap event) = EventRecordType.unmap

unfoldable pub decode_event_record_type : ℕ → Option EventRecordType
decode_event_record_type value =
    if value == 1
    then some EventRecordType.heap_create
    else if value == 2
    then some EventRecordType.heap_destroy
    else if value == 3
    then some EventRecordType.allocate
    else if value == 4
    then some EventRecordType.reallocate
    else if value == 5
    then some EventRecordType.free
    else if value == 6
    then some EventRecordType.vm_allocate
    else if value == 7
    then some EventRecordType.vm_free
    else if value == 8
    then some EventRecordType.map
    else if value == 9
    then some EventRecordType.unmap
    else if value == 10
    then some EventRecordType.loss
    else none

unfoldable pub append_event_payload : EventPayload → Append
append_event_payload (EventPayload.heap_create event) = append_heap_create_event event
append_event_payload (EventPayload.heap_destroy event) = append_heap_destroy_event event
append_event_payload (EventPayload.allocation event) = append_allocation_event event
append_event_payload (EventPayload.reallocation event) = append_reallocation_event event
append_event_payload (EventPayload.free event) = append_free_event event
append_event_payload (EventPayload.vm_allocate event) = append_vm_allocate_event event
append_event_payload (EventPayload.vm_free event) = append_vm_free_event event
append_event_payload (EventPayload.map event) = append_map_event event
append_event_payload (EventPayload.unmap event) = append_unmap_event event

-- A variant that holds what was read.
unfoldable pub as_payload : {A : Type 0} → (A → EventPayload) → Reader A → Reader EventPayload
as_payload wrap reader = do event ← reader; return (wrap event)

unfoldable pub decode_memory_event_payload : EventRecordType → Reader EventPayload
decode_memory_event_payload EventRecordType.heap_create =
    as_payload EventPayload.heap_create read_heap_create_event
decode_memory_event_payload EventRecordType.heap_destroy =
    as_payload EventPayload.heap_destroy read_heap_destroy_event
decode_memory_event_payload EventRecordType.allocate =
    as_payload EventPayload.allocation read_allocation_event
decode_memory_event_payload EventRecordType.reallocate =
    as_payload EventPayload.reallocation read_reallocation_event
decode_memory_event_payload EventRecordType.free = as_payload EventPayload.free read_free_event
decode_memory_event_payload EventRecordType.vm_allocate =
    as_payload EventPayload.vm_allocate read_vm_allocate_event
decode_memory_event_payload EventRecordType.vm_free =
    as_payload EventPayload.vm_free read_vm_free_event
decode_memory_event_payload EventRecordType.map = as_payload EventPayload.map read_map_event
decode_memory_event_payload EventRecordType.unmap = as_payload EventPayload.unmap read_unmap_event
decode_memory_event_payload EventRecordType.loss =
    attempt (err (record_codec_error "Loss is not a memory event payload"))

unfoldable pub append_event : Event → Append
append_event event = append_event_header event.header ▷ append_event_payload event.payload

unfoldable pub read_event : EventRecordType → Reader Event
read_event type = do
  header ← read_event_header
  payload ← decode_memory_event_payload type
  return (record { header = header; payload = payload })

unfoldable pub append_event_record : Event → ℕ → Bytes → Result Bytes
append_event_record event maximum_record_size chunk_payload = after (validate_event event) (
    append_record chunk_payload (record_type_number (event_record_type event.payload))
      record_version (append_event event []) maximum_record_size)

pub data EventChunkRecord : Type 0 where
  memory_event : Event → EventChunkRecord
  loss_record : LossRecord → EventChunkRecord

abbrev pub whole_event : EventRecordType → Reader Event
whole_event type =
    whole catch_event "invalid memory event record: " ok validate_event (read_event type)

-- The part of `decode_event_chunk_record` that follows the tests of the type and the version.
unfoldable pub decode_event_chunk_payload : EventRecordType → Bytes → Result EventChunkRecord
decode_event_chunk_payload EventRecordType.loss payload =
    mapped loss_record (run whole_loss payload)
decode_event_chunk_payload type payload = mapped memory_event (run (whole_event type) payload)

-- `type.has_value()`, and what follows it.
abbrev decode_typed : Option EventRecordType → RecordView → Result (Option EventChunkRecord)
decode_typed none view = ok none
decode_typed (some type) view =
    as_record view.record_type view (decode_event_chunk_payload type view.payload)

unfoldable pub decode_event_chunk_record : RecordView → Result (Option EventChunkRecord)
unfolding decode_event_record_type
decode_event_chunk_record view = decode_typed (decode_event_record_type view.record_type) view
