-- ===== src/Trace/RecordCodec/Memory/RoundTrip.antt =====
-- src/trace/record_codec.cpp: the records of memory maps and of the agent's own memory are restored.
use noleax.Prelude.{
  ℕ, ◌+◌, ◌-◌, ◌*◌, ◌/◌, ◌^◌, ◌≤◌, ◌<◌, false, ◌||◌, ltb, ◌≡◌, refl, arith, IsU64, All, length, [],
}
use noleax.Prelude.Error.{ok}
use noleax.Trace.Bytes.{Bytes}
use noleax.Trace.PayloadReader.Codes.{
  Codes, codes, Codes-last, fail_if_lem, Codes-step, Codes-each, Codes-resize,
}
use noleax.Trace.PayloadReader.Codes.Numbers.{
  Codes-u32, Codes-u64, Codes-zeros, Codes-bool, Codes-u8_u16_zeros,
}
use noleax.Trace.RecordCodec.{catch_memory_snapshot}
use noleax.Trace.RecordCodec.Restores.{Restores, restores, run-whole, length-Codes}
use noleax.Trace.RecordCursor.Records.{Fits}
use noleax.Trace.MemorySnapshot.{
  MemoryMapRegion, MemoryMap, AgentMemoryCategorySample, AgentMemory, validate_memory_map,
  validate_agent_memory,
}
use noleax.Trace.RecordCodec.Enumerations.Named.{
  Codes-memory_region_state, HasMemoryRegionStateName, Codes-memory_region_type,
  HasMemoryRegionTypeName, Codes-agent_memory_sample_kind, HasAgentMemorySampleKindName,
}
use noleax.Trace.RecordCodec.Memory.{
  append_memory_map_region, read_memory_map_region, append_agent_memory_category,
  read_agent_memory_category, append_memory_map, read_memory_map, append_memory_map_record,
  decode_memory_map_record, append_agent_memory, read_agent_memory, append_agent_memory_record,
  decode_agent_memory_record,
}

-- Each field is a value of its type, and an enumeration's has a name.
pub record MemoryMapRegionWidths (region : MemoryMapRegion) : Type 0 where
  pub base : IsU64 region.base
  pub size : IsU64 region.size
  pub state : HasMemoryRegionStateName region.state
  pub type : HasMemoryRegionTypeName region.type
  pub protect : region.protect < 2 ^ 32

pub Codes-memory_map_region :
    (region : MemoryMapRegion)
    → MemoryMapRegionWidths region
    → Codes (append_memory_map_region region) read_memory_map_region region 24
unfolding append_memory_map_region read_memory_map_region
Codes-memory_map_region region widths = Codes-resize refl (
    codes _ (Codes-u64 region.base widths.base) (
      codes _ (Codes-u64 region.size widths.size) (
        codes _ (Codes-memory_region_state region.state widths.state) (
          codes _ (Codes-memory_region_type region.type widths.type)
            (codes _ (Codes-u32 region.protect widths.protect) (Codes-last _ (Codes-zeros 2)))))))

-- Each field is a value of its type.
pub record AgentMemoryCategoryWidths (sample : AgentMemoryCategorySample) : Type 0 where
  pub category : sample.category < 2 ^ 32
  pub flags : sample.flags < 2 ^ 32
  pub reserved_bytes : IsU64 sample.reserved_bytes
  pub resident_bytes : IsU64 sample.resident_bytes

pub Codes-agent_memory_category :
    (sample : AgentMemoryCategorySample)
    → AgentMemoryCategoryWidths sample
    → Codes (append_agent_memory_category sample) read_agent_memory_category sample 24
unfolding append_agent_memory_category read_agent_memory_category
Codes-agent_memory_category sample widths = Codes-resize refl (
    codes _ (Codes-u32 sample.category widths.category) (
      codes _ (Codes-u32 sample.flags widths.flags) (
        codes _ (Codes-u64 sample.reserved_bytes widths.reserved_bytes)
          (Codes-last _ (Codes-u64 sample.resident_bytes widths.resident_bytes)))))

-- The fields are values of their types, and there are no more elements than the validator allows.
pub record MemoryMapWidths (map : MemoryMap) : Type 0 where
  pub monotonic_ticks : IsU64 map.monotonic_ticks
  pub regions_size : length map.regions ≤ 32768
  pub committed_bytes : IsU64 map.committed_bytes
  pub reserved_bytes : IsU64 map.reserved_bytes
  pub free_bytes : IsU64 map.free_bytes
  pub largest_free_bytes : IsU64 map.largest_free_bytes
  pub regions : All MemoryMapRegionWidths map.regions

Codes-memory_map :
    (map : MemoryMap)
    → MemoryMapWidths map
    → Codes
        (append_memory_map map)
        (read_memory_map (48 + length map.regions * 24))
        map
        (48 + length map.regions * 24)
unfolding append_memory_map read_memory_map
Codes-memory_map map widths = Codes-resize (omega arith) (
    codes _ (Codes-u64 map.monotonic_ticks widths.monotonic_ticks) (
      codes _ (Codes-bool _ map.truncated) (
        codes _ (Codes-zeros 3) (
          codes _ (Codes-u32 (length map.regions) (omega (arith, widths.regions_size))) (
            codes _ (Codes-u64 map.committed_bytes widths.committed_bytes) (
              codes _ (Codes-u64 map.reserved_bytes widths.reserved_bytes) (
                codes _ (Codes-u64 map.free_bytes widths.free_bytes) (
                  codes _ (Codes-u64 map.largest_free_bytes widths.largest_free_bytes) (
                    Codes-step _
                      (λ left. fail_if_lem _ _ left (ground (arith, widths.regions_size)))
                      (Codes-last _ (
                        Codes-each MemoryMapRegionWidths append_memory_map_region
                          read_memory_map_region 24 Codes-memory_map_region map.regions
                          widths.regions)))))))))))

-- A memory map that is valid, with fields and lengths that fit their types, with
-- names for its enumerations and with room in the chunk, is appended as a record that the cursor
-- finds and from which it is decoded again. It has no more elements than its validator allows.
pub append_memory_map_record-Restores :
    (map : MemoryMap) (maximum : ℕ) (chunk rest : Bytes)
    → validate_memory_map map ≡ ok tt
    → MemoryMapWidths map
    → Fits chunk (48 + length map.regions * 24) maximum
    → Restores
        (append_memory_map_record map maximum)
        decode_memory_map_record
        map
        maximum
        chunk
        rest
unfolding append_memory_map_record decode_memory_map_record
append_memory_map_record-Restores map maximum chunk rest valid widths fits =
    let c = Codes-memory_map map widths in
    let decodes =
      run-whole c catch_memory_snapshot "invalid MemoryMap record: " ok validate_memory_map map refl
        valid in
    let guard : (ltb maximum (8 + 48) || ltb ((maximum - 8 - 48) / 24) (length map.regions))
        ≡ false =
      ground (arith, fits.in_record, fits.in_word) in
    restores c (append_memory_map_record map maximum) decode_memory_map_record map 2 maximum chunk
      rest (rw (valid, guard) refl)
      (let long : ltb (length (append_memory_map map [])) 48 ≡ false =
          ground (arith, length-Codes c) in
        rw (long, length-Codes c, decodes) refl)
      (λ e. cc) (omega arith) fits

-- The fields are values of their types, and there are no more elements than the validator allows.
pub record AgentMemoryWidths (memory : AgentMemory) : Type 0 where
  pub monotonic_ticks : IsU64 memory.monotonic_ticks
  pub kind : HasAgentMemorySampleKindName memory.kind
  pub categories_size : length memory.categories ≤ 64
  pub categories : All AgentMemoryCategoryWidths memory.categories

Codes-agent_memory :
    (memory : AgentMemory)
    → AgentMemoryWidths memory
    → Codes
        (append_agent_memory memory)
        (read_agent_memory (16 + length memory.categories * 24))
        memory
        (16 + length memory.categories * 24)
unfolding append_agent_memory read_agent_memory
Codes-agent_memory memory widths = Codes-resize (omega arith) (
    codes _ (Codes-u64 memory.monotonic_ticks widths.monotonic_ticks) (
      codes _ (Codes-agent_memory_sample_kind memory.kind widths.kind) (
        codes _ Codes-u8_u16_zeros (
          codes _ (Codes-u32 (length memory.categories) (omega (arith, widths.categories_size))) (
            Codes-step _ (λ left. fail_if_lem _ _ left (ground (arith, widths.categories_size)))
              (Codes-last _ (
                Codes-each AgentMemoryCategoryWidths append_agent_memory_category
                  read_agent_memory_category 24 Codes-agent_memory_category memory.categories
                  widths.categories)))))))

-- An agent memory record that is valid, with fields and lengths that fit their types, with
-- names for its enumerations and with room in the chunk, is appended as a record that the cursor
-- finds and from which it is decoded again. It has no more elements than its validator allows.
pub append_agent_memory_record-Restores :
    (memory : AgentMemory) (maximum : ℕ) (chunk rest : Bytes)
    → validate_agent_memory memory ≡ ok tt
    → AgentMemoryWidths memory
    → Fits chunk (16 + length memory.categories * 24) maximum
    → Restores
        (append_agent_memory_record memory maximum)
        decode_agent_memory_record
        memory
        maximum
        chunk
        rest
unfolding append_agent_memory_record decode_agent_memory_record
append_agent_memory_record-Restores memory maximum chunk rest valid widths fits =
    let c = Codes-agent_memory memory widths in
    let decodes =
      run-whole c catch_memory_snapshot "invalid AgentMemory record: " ok validate_agent_memory
        memory refl valid in
    let guard : (ltb maximum (8 + 16) || ltb ((maximum - 8 - 16) / 24) (length memory.categories))
        ≡ false =
      ground (arith, fits.in_record, fits.in_word) in
    restores c (append_agent_memory_record memory maximum) decode_agent_memory_record memory 3
      maximum chunk rest (rw (valid, guard) refl)
      (let long : ltb (length (append_agent_memory memory [])) 16 ≡ false =
          ground (arith, length-Codes c) in
        rw (long, length-Codes c, decodes) refl)
      (λ e. cc) (omega arith) fits
