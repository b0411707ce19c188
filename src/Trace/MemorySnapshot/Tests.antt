-- ===== src/Trace/MemorySnapshot/Tests.antt =====
-- A memory map, a sample of the agent's memory and a buffer configuration.
use noleax.Prelude.{◌≤◌, [], ◌∷◌, false, length, ◌≡◌, ◌↔◌, arith}
use noleax.Prelude.Error.{ok}
use noleax.Trace.MemorySnapshot.{
  MemoryRegionState, MemoryRegionType, MemoryMap, BufferConfiguration, validate_memory_map,
  validate_buffer_configuration,
}
use noleax.Trace.MemorySnapshot.Ranges.{
  AreOrdered, IsSlotMath, validate_memory_map_lem, validate_buffer_configuration_lem,
}

abbrev two_regions : MemoryMap
two_regions = record {
  monotonic_ticks = 10;
  truncated = false;
  committed_bytes = 0x2000;
  reserved_bytes = 0x1000;
  free_bytes = 0x5000;
  largest_free_bytes = 0x4000;
  regions =
      record {
        base = 0x1000;
        size = 0x2000;
        state = MemoryRegionState.commit;
        type = MemoryRegionType.image;
        protect = 4;
      }
      ∷ record {
        base = 0x8000;
        size = 0x1000;
        state = MemoryRegionState.reserve;
        type = MemoryRegionType.private;
        protect = 1;
      }
      ∷ [];
}

validate_memory_map_lem_example :
    (validate_memory_map two_regions ≡ ok tt)
    ↔ ((length two_regions.regions ≤ 32768) × AreOrdered 0 two_regions.regions)
validate_memory_map_lem_example = validate_memory_map_lem two_regions (omega arith)

abbrev ring : BufferConfiguration
ring = record {
  requested_bytes = 1000;
  effective_slots = 8;
  event_size = 100;
  slot_size = 112;
  reserved_bytes = 896;
  resident_after_init_bytes = 896;
  flags = 1;
}

validate_buffer_configuration_lem_example :
    (validate_buffer_configuration ring ≡ ok tt) ↔ IsSlotMath ring
validate_buffer_configuration_lem_example = validate_buffer_configuration_lem ring
