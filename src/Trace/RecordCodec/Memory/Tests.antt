-- ===== src/Trace/RecordCodec/Memory/Tests.antt =====
-- A memory map and a sample of the agent's memory that are found again.
use noleax.Prelude.{[], ◌∷◌, true, ◌≡◌, refl, arith}
use noleax.Prelude.Error.{ok}
use noleax.Trace.MemorySnapshot.{
  MemoryRegionState, MemoryRegionType, MemoryMap, AgentMemory, AgentMemorySampleKind,
  validate_memory_map, validate_regions, validate_agent_memory, validate_categories,
}
use noleax.Trace.RecordCodec.Restores.{Restores}
use noleax.Trace.RecordCodec.Memory.{
  append_memory_map_record, decode_memory_map_record, append_agent_memory_record,
  decode_agent_memory_record,
}
use noleax.Trace.RecordCodec.Memory.RoundTrip.{
  append_memory_map_record-Restores, append_agent_memory_record-Restores,
}

abbrev one_region : MemoryMap
one_region = record {
  monotonic_ticks = 10;
  truncated = true;
  committed_bytes = 0x2000;
  reserved_bytes = 0x1000;
  free_bytes = 0x5000;
  largest_free_bytes = 0x4000;
  regions =
      record {
        base = 0x1000;
        size = 0x2000;
        state = MemoryRegionState.commit;
        type = MemoryRegionType.private;
        protect = 4;
      }
      ∷ [];
}

one_region_valid : validate_memory_map one_region ≡ ok tt
unfolding validate_memory_map validate_regions
one_region_valid = refl

append_memory_map_record-Restores_example :
    Restores
      (append_memory_map_record one_region 4096)
      decode_memory_map_record
      one_region
      4096
      []
      (1 ∷ [])
append_memory_map_record-Restores_example =
    append_memory_map_record-Restores one_region 4096 [] (1 ∷ []) one_region_valid
      (record {
        monotonic_ticks = omega arith;
        regions_size = omega arith;
        committed_bytes = omega arith;
        reserved_bytes = omega arith;
        free_bytes = omega arith;
        largest_free_bytes = omega arith;
        regions = (
          record {
            base = omega arith;
            size = omega arith;
            state = tt;
            type = tt;
            protect = omega arith;
          },
          tt,
        );
      })
      (record { in_record = omega arith; in_word = omega arith; in_chunk = omega arith })

abbrev queue_memory : AgentMemory
queue_memory = record {
  monotonic_ticks = 10;
  kind = AgentMemorySampleKind.baseline_post_init;
  categories =
      record { category = 1; flags = 1; reserved_bytes = 0x8000; resident_bytes = 0x4000 } ∷ [];
}

queue_memory_valid : validate_agent_memory queue_memory ≡ ok tt
unfolding validate_agent_memory validate_categories
queue_memory_valid = refl

append_agent_memory_record-Restores_example :
    Restores
      (append_agent_memory_record queue_memory 4096)
      decode_agent_memory_record
      queue_memory
      4096
      []
      (1 ∷ [])
append_agent_memory_record-Restores_example =
    append_agent_memory_record-Restores queue_memory 4096 [] (1 ∷ []) queue_memory_valid
      (record {
        monotonic_ticks = omega arith;
        kind = tt;
        categories_size = omega arith;
        categories = (
          record {
            category = omega arith;
            flags = omega arith;
            reserved_bytes = omega arith;
            resident_bytes = omega arith;
          },
          tt,
        );
      })
      (record { in_record = omega arith; in_word = omega arith; in_chunk = omega arith })
