-- ===== src/Trace/RecordCodec/Events/RoundTrip.antt =====
-- src/trace/record_codec.cpp: the records of memory events are restored.
use noleax.Prelude.{ℕ, ◌+◌, ◌^◌, ◌<◌, some, ◌≡◌, ◌≢◌, refl, ap, arith, []}
use noleax.Prelude.Error.{ok}
use noleax.Trace.Bytes.{Bytes, Append}
use noleax.Trace.PayloadReader.{Reader, run}
use noleax.Trace.PayloadReader.Codes.{Codes, codes, Codes-last}
use noleax.Trace.RecordCodec.{catch_event, mapped}
use noleax.Trace.RecordCodec.Restores.{Restores, restores, run-whole}
use noleax.Trace.RecordCursor.Records.{Fits}
use noleax.Trace.RecordCursor.Framing.{view_of}
use noleax.Trace.Event.{EventPayload, Event}
use noleax.Trace.Event.Validate.{validate_event}
use noleax.Trace.RecordCodec.Events.{
  record_type_number, event_record_type, decode_event_record_type, append_event_payload, as_payload,
  decode_memory_event_payload, append_event, read_event, append_event_record, whole_event,
  decode_event_chunk_payload, decode_event_chunk_record, memory_event,
}
use noleax.Trace.RecordCodec.Fields.Layout.{
  EventHeaderWidths, Codes-event_header, HeapCreateEventWidths, Codes-heap_create_event,
  HeapDestroyEventWidths, Codes-heap_destroy_event, AllocationEventWidths, Codes-allocation_event,
  ReallocationEventWidths, Codes-reallocation_event, FreeEventWidths, Codes-free_event,
}
use noleax.Trace.RecordCodec.MappingFields.Layout.{
  VmAllocateEventWidths, Codes-vm_allocate_event, VmFreeEventWidths, Codes-vm_free_event,
  MapEventWidths, Codes-map_event, UnmapEventWidths, Codes-unmap_event,
}

-- The payload's size in bytes.
abbrev pub payload_size : EventPayload → ℕ
payload_size (EventPayload.heap_create event) = 40
payload_size (EventPayload.heap_destroy event) = 24
payload_size (EventPayload.allocation event) = 48
payload_size (EventPayload.reallocation event) = 72
payload_size (EventPayload.free event) = 48
payload_size (EventPayload.vm_allocate event) = 88
payload_size (EventPayload.vm_free event) = 56
payload_size (EventPayload.map event) = 72
payload_size (EventPayload.unmap event) = 40

-- Each field of the payload is a value of its type, and an enumeration's has a name.
abbrev pub PayloadWidths : EventPayload → Type 0
PayloadWidths (EventPayload.heap_create event) = HeapCreateEventWidths event
PayloadWidths (EventPayload.heap_destroy event) = HeapDestroyEventWidths event
PayloadWidths (EventPayload.allocation event) = AllocationEventWidths event
PayloadWidths (EventPayload.reallocation event) = ReallocationEventWidths event
PayloadWidths (EventPayload.free event) = FreeEventWidths event
PayloadWidths (EventPayload.vm_allocate event) = VmAllocateEventWidths event
PayloadWidths (EventPayload.vm_free event) = VmFreeEventWidths event
PayloadWidths (EventPayload.map event) = MapEventWidths event
PayloadWidths (EventPayload.unmap event) = UnmapEventWidths event

Codes-as_payload :
    {A : Type 0} {f : Append} {reader : Reader A} {a : A} {n : ℕ} (wrap : A → EventPayload)
    → Codes f reader a n
    → Codes f (as_payload wrap reader) (wrap a) n
unfolding as_payload
Codes-as_payload wrap c = Codes-last wrap c

Codes-event_payload :
    (payload : EventPayload)
    → PayloadWidths payload
    → Codes
        (append_event_payload payload)
        (decode_memory_event_payload (event_record_type payload))
        payload
        (payload_size payload)
unfolding append_event_payload decode_memory_event_payload event_record_type
Codes-event_payload (EventPayload.heap_create event) widths =
    Codes-as_payload EventPayload.heap_create (Codes-heap_create_event event widths)
Codes-event_payload (EventPayload.heap_destroy event) widths =
    Codes-as_payload EventPayload.heap_destroy (Codes-heap_destroy_event event widths)
Codes-event_payload (EventPayload.allocation event) widths =
    Codes-as_payload EventPayload.allocation (Codes-allocation_event event widths)
Codes-event_payload (EventPayload.reallocation event) widths =
    Codes-as_payload EventPayload.reallocation (Codes-reallocation_event event widths)
Codes-event_payload (EventPayload.free event) widths =
    Codes-as_payload EventPayload.free (Codes-free_event event widths)
Codes-event_payload (EventPayload.vm_allocate event) widths =
    Codes-as_payload EventPayload.vm_allocate (Codes-vm_allocate_event event widths)
Codes-event_payload (EventPayload.vm_free event) widths =
    Codes-as_payload EventPayload.vm_free (Codes-vm_free_event event widths)
Codes-event_payload (EventPayload.map event) widths =
    Codes-as_payload EventPayload.map (Codes-map_event event widths)
Codes-event_payload (EventPayload.unmap event) widths =
    Codes-as_payload EventPayload.unmap (Codes-unmap_event event widths)

-- The widths of the fields of an event.
pub record EventWidths (event : Event) : Type 0 where
  pub header : EventHeaderWidths event.header
  pub payload : PayloadWidths event.payload

Codes-event :
    (event : Event)
    → EventWidths event
    → Codes
        (append_event event)
        (read_event (event_record_type event.payload))
        event
        (56 + payload_size event.payload)
unfolding append_event read_event
Codes-event event widths =
    codes _ (Codes-event_header event.header widths.header)
      (Codes-last _ (Codes-event_payload event.payload widths.payload))

record_type_number-lt :
    (payload : EventPayload)
    → (record_type_number (event_record_type payload) ≢ 0)
      × (record_type_number (event_record_type payload) < 2 ^ 16)
unfolding record_type_number event_record_type
record_type_number-lt (EventPayload.heap_create event) = (λ e. cc, omega arith)
record_type_number-lt (EventPayload.heap_destroy event) = (λ e. cc, omega arith)
record_type_number-lt (EventPayload.allocation event) = (λ e. cc, omega arith)
record_type_number-lt (EventPayload.reallocation event) = (λ e. cc, omega arith)
record_type_number-lt (EventPayload.free event) = (λ e. cc, omega arith)
record_type_number-lt (EventPayload.vm_allocate event) = (λ e. cc, omega arith)
record_type_number-lt (EventPayload.vm_free event) = (λ e. cc, omega arith)
record_type_number-lt (EventPayload.map event) = (λ e. cc, omega arith)
record_type_number-lt (EventPayload.unmap event) = (λ e. cc, omega arith)

decode_event_chunk_payload_lem :
    (payload : EventPayload) (bytes : Bytes) (event : Event)
    → run (whole_event (event_record_type payload)) bytes ≡ ok event
    → decode_event_chunk_payload (event_record_type payload) bytes ≡ ok (memory_event event)
unfolding decode_event_chunk_payload event_record_type
decode_event_chunk_payload_lem (EventPayload.heap_create e) bytes event h =
    ap (mapped memory_event) h
decode_event_chunk_payload_lem (EventPayload.heap_destroy e) bytes event h =
    ap (mapped memory_event) h
decode_event_chunk_payload_lem (EventPayload.allocation e) bytes event h =
    ap (mapped memory_event) h
decode_event_chunk_payload_lem (EventPayload.reallocation e) bytes event h =
    ap (mapped memory_event) h
decode_event_chunk_payload_lem (EventPayload.free e) bytes event h = ap (mapped memory_event) h
decode_event_chunk_payload_lem (EventPayload.vm_allocate e) bytes event h =
    ap (mapped memory_event) h
decode_event_chunk_payload_lem (EventPayload.vm_free e) bytes event h = ap (mapped memory_event) h
decode_event_chunk_payload_lem (EventPayload.map e) bytes event h = ap (mapped memory_event) h
decode_event_chunk_payload_lem (EventPayload.unmap e) bytes event h = ap (mapped memory_event) h

-- The decoder takes a payload by the type that the encoder gave it.
decode_event_chunk_record_lem :
    (payload : EventPayload) (bytes : Bytes) (event : Event)
    → run (whole_event (event_record_type payload)) bytes ≡ ok event
    → decode_event_chunk_record (view_of (record_type_number (event_record_type payload)) 1 bytes)
      ≡ ok (some (memory_event event))
unfolding decode_event_chunk_record decode_event_record_type record_type_number event_record_type
decode_event_chunk_record_lem (EventPayload.heap_create e) bytes event h =
    ap (mapped some) (decode_event_chunk_payload_lem (EventPayload.heap_create e) bytes event h)
decode_event_chunk_record_lem (EventPayload.heap_destroy e) bytes event h =
    ap (mapped some) (decode_event_chunk_payload_lem (EventPayload.heap_destroy e) bytes event h)
decode_event_chunk_record_lem (EventPayload.allocation e) bytes event h =
    ap (mapped some) (decode_event_chunk_payload_lem (EventPayload.allocation e) bytes event h)
decode_event_chunk_record_lem (EventPayload.reallocation e) bytes event h =
    ap (mapped some) (decode_event_chunk_payload_lem (EventPayload.reallocation e) bytes event h)
decode_event_chunk_record_lem (EventPayload.free e) bytes event h =
    ap (mapped some) (decode_event_chunk_payload_lem (EventPayload.free e) bytes event h)
decode_event_chunk_record_lem (EventPayload.vm_allocate e) bytes event h =
    ap (mapped some) (decode_event_chunk_payload_lem (EventPayload.vm_allocate e) bytes event h)
decode_event_chunk_record_lem (EventPayload.vm_free e) bytes event h =
    ap (mapped some) (decode_event_chunk_payload_lem (EventPayload.vm_free e) bytes event h)
decode_event_chunk_record_lem (EventPayload.map e) bytes event h =
    ap (mapped some) (decode_event_chunk_payload_lem (EventPayload.map e) bytes event h)
decode_event_chunk_record_lem (EventPayload.unmap e) bytes event h =
    ap (mapped some) (decode_event_chunk_payload_lem (EventPayload.unmap e) bytes event h)

-- A memory event that is valid, whose fields fit their types, whose enumerations have names and
-- that has room in the chunk, is appended as a record that the cursor finds and from which the same
-- event is decoded.
pub append_event_record-Restores :
    (event : Event) (maximum : ℕ) (chunk rest : Bytes)
    → validate_event event ≡ ok tt
    → EventWidths event
    → Fits chunk (56 + payload_size event.payload) maximum
    → Restores
        (append_event_record event maximum)
        decode_event_chunk_record
        (memory_event event)
        maximum
        chunk
        rest
unfolding append_event_record
append_event_record-Restores event maximum chunk rest valid widths fits =
    let c = Codes-event event widths in
    let number = record_type_number-lt event.payload in
    restores c (append_event_record event maximum) decode_event_chunk_record (memory_event event)
      (record_type_number (event_record_type event.payload)) maximum chunk rest (rw valid refl)
      (decode_event_chunk_record_lem event.payload (append_event event []) event (
        run-whole c catch_event "invalid memory event record: " ok validate_event event refl valid))
      number.0 number.1 fits
