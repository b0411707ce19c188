-- ===== src/Trace/RecordCodec/MappingFields/Layout.antt =====
-- src/trace/record_codec.cpp: the payloads of the events on mappings are read as they were appended.
use noleax.Trace.RecordCodec.Fields.Layout.{ProcessTargetWidths, Codes-process_target}
use noleax.Prelude.{◌^◌, ◌<◌, refl, IsU64}
use noleax.Trace.PayloadReader.Codes.{Codes, codes, Codes-last, Codes-resize}
use noleax.Trace.PayloadReader.Codes.Numbers.{Codes-u32, Codes-u64, Codes-u32_zeros}
use noleax.Trace.Event.{VmAllocateEvent, VmFreeEvent, MapEvent, UnmapEvent}
use noleax.Trace.RecordCodec.MappingFields.{
  append_vm_allocate_event, read_vm_allocate_event, append_vm_free_event, read_vm_free_event,
  append_map_event, read_map_event, append_unmap_event, read_unmap_event,
}

-- Each field is a value of its type.
pub record VmAllocateEventWidths (event : VmAllocateEvent) : Type 0 where
  pub target : ProcessTargetWidths event.target
  pub requested_base : IsU64 event.requested_base
  pub result_base : IsU64 event.result_base
  pub requested_size : IsU64 event.requested_size
  pub result_size : IsU64 event.result_size
  pub mapping_base : IsU64 event.mapping_base
  pub mapping_size : IsU64 event.mapping_size
  pub allocation_type : event.allocation_type < 2 ^ 32
  pub protection : event.protection < 2 ^ 32
  pub mapping_id : IsU64 event.mapping_id

pub Codes-vm_allocate_event :
    (event : VmAllocateEvent)
    → VmAllocateEventWidths event
    → Codes (append_vm_allocate_event event) read_vm_allocate_event event 88
unfolding append_vm_allocate_event read_vm_allocate_event
Codes-vm_allocate_event event widths = Codes-resize refl (
    codes _ (Codes-process_target event.target widths.target) (
      codes _ (Codes-u64 event.requested_base widths.requested_base) (
        codes _ (Codes-u64 event.result_base widths.result_base) (
          codes _ (Codes-u64 event.requested_size widths.requested_size) (
            codes _ (Codes-u64 event.result_size widths.result_size) (
              codes _ (Codes-u64 event.mapping_base widths.mapping_base) (
                codes _ (Codes-u64 event.mapping_size widths.mapping_size) (
                  codes _ (Codes-u32 event.allocation_type widths.allocation_type) (
                    codes _ (Codes-u32 event.protection widths.protection)
                      (Codes-last _ (Codes-u64 event.mapping_id widths.mapping_id)))))))))))

-- Each field is a value of its type.
pub record VmFreeEventWidths (event : VmFreeEvent) : Type 0 where
  pub target : ProcessTargetWidths event.target
  pub base : IsU64 event.base
  pub region_size : IsU64 event.region_size
  pub free_type : event.free_type < 2 ^ 32
  pub mapping_id : IsU64 event.mapping_id

pub Codes-vm_free_event :
    (event : VmFreeEvent)
    → VmFreeEventWidths event
    → Codes (append_vm_free_event event) read_vm_free_event event 56
unfolding append_vm_free_event read_vm_free_event
Codes-vm_free_event event widths = Codes-resize refl (
    codes _ (Codes-process_target event.target widths.target) (
      codes _ (Codes-u64 event.base widths.base) (
        codes _ (Codes-u64 event.region_size widths.region_size) (
          codes _ (Codes-u32 event.free_type widths.free_type) (
            codes _ Codes-u32_zeros
              (Codes-last _ (Codes-u64 event.mapping_id widths.mapping_id)))))))

-- Each field is a value of its type.
pub record MapEventWidths (event : MapEvent) : Type 0 where
  pub section_handle : IsU64 event.section_handle
  pub target : ProcessTargetWidths event.target
  pub result_base : IsU64 event.result_base
  pub view_size : IsU64 event.view_size
  pub section_offset : IsU64 event.section_offset
  pub protection : event.protection < 2 ^ 32
  pub mapping_id : IsU64 event.mapping_id

pub Codes-map_event :
    (event : MapEvent)
    → MapEventWidths event
    → Codes (append_map_event event) read_map_event event 72
unfolding append_map_event read_map_event
Codes-map_event event widths = Codes-resize refl (
    codes _ (Codes-u64 event.section_handle widths.section_handle) (
      codes _ (Codes-process_target event.target widths.target) (
        codes _ (Codes-u64 event.result_base widths.result_base) (
          codes _ (Codes-u64 event.view_size widths.view_size) (
            codes _ (Codes-u64 event.section_offset widths.section_offset) (
              codes _ (Codes-u32 event.protection widths.protection) (
                codes _ Codes-u32_zeros
                  (Codes-last _ (Codes-u64 event.mapping_id widths.mapping_id)))))))))

-- Each field is a value of its type.
pub record UnmapEventWidths (event : UnmapEvent) : Type 0 where
  pub target : ProcessTargetWidths event.target
  pub base : IsU64 event.base
  pub mapping_id : IsU64 event.mapping_id

pub Codes-unmap_event :
    (event : UnmapEvent)
    → UnmapEventWidths event
    → Codes (append_unmap_event event) read_unmap_event event 40
unfolding append_unmap_event read_unmap_event
Codes-unmap_event event widths = Codes-resize refl (
    codes _ (Codes-process_target event.target widths.target) (
      codes _ (Codes-u64 event.base widths.base)
        (Codes-last _ (Codes-u64 event.mapping_id widths.mapping_id))))
