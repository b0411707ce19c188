-- ===== src/Trace/RecordCodec/Memory.antt =====
-- src/trace/record_codec.cpp: the records of memory maps and of the agent's own memory.
pub mod RoundTrip
mod Tests
use noleax.Prelude.{
  ℕ, ◌+◌, ◌-◌, ◌*◌, ◌/◌, true, false, ◌||◌, not, ◌!=◌, ltb, Option, if◌then◌else◌, length, [],
}
use noleax.Prelude.Error.{Result, ok, err, throw_if, record_codec_error}
use noleax.Trace.Bytes.{
  Bytes, Append, ◌▷◌, append_u8, append_u16, append_u32, append_u64, append_zeros, append_each,
}
use noleax.Trace.PayloadReader.{
  Reader, ◌>>=◌, ◌>>◌, return, read_u32, read_u64, expect_zeros, read_as, decode_bool, run,
  read_each, fail_if,
}
use noleax.Trace.RecordCodec.{record_version, catch_memory_snapshot, whole, as_record, after}
use noleax.Trace.RecordCursor.{RecordView}
use noleax.Trace.WireFormat.{append_record}
use noleax.Trace.MemorySnapshot.{
  MemoryMapRegion, MemoryMap, AgentMemoryCategorySample, AgentMemory, validate_memory_map,
  validate_agent_memory, maximum_memory_map_regions, maximum_agent_memory_categories,
}
use noleax.Trace.RecordCodec.Enumerations.{
  memory_region_state_byte, decode_memory_region_state, memory_region_type_byte,
  decode_memory_region_type, agent_memory_sample_kind_byte, decode_agent_memory_sample_kind,
}

unfoldable pub append_memory_map_region : MemoryMapRegion → Append
append_memory_map_region region =
    append_u64 region.base
    ▷ append_u64 region.size
    ▷ append_u8 (memory_region_state_byte region.state)
    ▷ append_u8 (memory_region_type_byte region.type)
    ▷ append_u32 region.protect
    ▷ append_zeros 2

unfoldable pub read_memory_map_region : Reader MemoryMapRegion
read_memory_map_region = do
  base ← read_u64
  size ← read_u64
  state ← read_as decode_memory_region_state
  type ← read_as decode_memory_region_type
  protect ← read_u32
  expect_zeros 2
  return (record { base = base; size = size; state = state; type = type; protect = protect })

unfoldable pub append_agent_memory_category : AgentMemoryCategorySample → Append
append_agent_memory_category sample =
    append_u32 sample.category
    ▷ append_u32 sample.flags
    ▷ append_u64 sample.reserved_bytes
    ▷ append_u64 sample.resident_bytes

unfoldable pub read_agent_memory_category : Reader AgentMemoryCategorySample
read_agent_memory_category = do
  category ← read_u32
  flags ← read_u32
  reserved_bytes ← read_u64
  resident_bytes ← read_u64
  return (record {
    category = category;
    flags = flags;
    reserved_bytes = reserved_bytes;
    resident_bytes = resident_bytes;
  })

unfoldable pub append_memory_map : MemoryMap → Append
append_memory_map map =
    append_u64 map.monotonic_ticks
    ▷ append_u8 (if map.truncated then 1 else 0)
    ▷ append_zeros 3
    ▷ append_u32 (length map.regions)
    ▷ append_u64 map.committed_bytes
    ▷ append_u64 map.reserved_bytes
    ▷ append_u64 map.free_bytes
    ▷ append_u64 map.largest_free_bytes
    ▷ append_each append_memory_map_region map.regions

-- The argument is the size of the whole payload.
unfoldable pub read_memory_map : ℕ → Reader MemoryMap
read_memory_map size = do
  monotonic_ticks ← read_u64
  truncated ← decode_bool "memory map truncated flag is not zero or one"
  expect_zeros 3
  count ← read_u32
  committed_bytes ← read_u64
  reserved_bytes ← read_u64
  free_bytes ← read_u64
  largest_free_bytes ← read_u64
  fail_if (ltb maximum_memory_map_regions count || 48 + count * 24 != size)
      "memory map region count does not match the record payload"
  regions ← read_each read_memory_map_region count
  return (record {
    monotonic_ticks = monotonic_ticks;
    truncated = truncated;
    committed_bytes = committed_bytes;
    reserved_bytes = reserved_bytes;
    free_bytes = free_bytes;
    largest_free_bytes = largest_free_bytes;
    regions = regions;
  })

abbrev pub whole_memory_map : ℕ → Reader MemoryMap
whole_memory_map size =
    whole catch_memory_snapshot "invalid MemoryMap record: " ok validate_memory_map
      (read_memory_map size)

unfoldable pub append_memory_map_record : MemoryMap → ℕ → Bytes → Result Bytes
append_memory_map_record map maximum_record_size chunk_payload = after (validate_memory_map map) (
    after
      (throw_if
        (ltb maximum_record_size (8 + 48)
          || ltb ((maximum_record_size - 8 - 48) / 24) (length map.regions))
        (record_codec_error "memory map exceeds the configured record size limit"))
      (append_record chunk_payload 2 record_version (append_memory_map map []) maximum_record_size))

unfoldable pub decode_memory_map_record : RecordView → Result (Option MemoryMap)
decode_memory_map_record view = as_record 2 view (elim (ltb (length view.payload) 48) [
  | true ↦ err (record_codec_error "memory map payload is truncated")
  | false ↦ run (whole_memory_map (length view.payload)) view.payload
])

unfoldable pub append_agent_memory : AgentMemory → Append
append_agent_memory memory =
    append_u64 memory.monotonic_ticks
    ▷ append_u8 (agent_memory_sample_kind_byte memory.kind)
    ▷ (append_u8 0 ▷ append_u16 0)
    ▷ append_u32 (length memory.categories)
    ▷ append_each append_agent_memory_category memory.categories

-- The argument is the size of the whole payload.
unfoldable pub read_agent_memory : ℕ → Reader AgentMemory
read_agent_memory size = do
  monotonic_ticks ← read_u64
  kind ← read_as decode_agent_memory_sample_kind
  expect_zeros 3
  count ← read_u32
  fail_if (ltb maximum_agent_memory_categories count || 16 + count * 24 != size)
      "agent memory category count does not match the record payload"
  categories ← read_each read_agent_memory_category count
  return (record { monotonic_ticks = monotonic_ticks; kind = kind; categories = categories })

abbrev pub whole_agent_memory : ℕ → Reader AgentMemory
whole_agent_memory size =
    whole catch_memory_snapshot "invalid AgentMemory record: " ok validate_agent_memory
      (read_agent_memory size)

unfoldable pub append_agent_memory_record : AgentMemory → ℕ → Bytes → Result Bytes
append_agent_memory_record memory maximum_record_size chunk_payload =
    after (validate_agent_memory memory) (
      after
        (throw_if
          (ltb maximum_record_size (8 + 16)
            || ltb ((maximum_record_size - 8 - 16) / 24) (length memory.categories))
          (record_codec_error "agent memory exceeds the configured record size limit"))
        (append_record chunk_payload 3 record_version (append_agent_memory memory [])
          maximum_record_size))

unfoldable pub decode_agent_memory_record : RecordView → Result (Option AgentMemory)
decode_agent_memory_record view = as_record 3 view (elim (ltb (length view.payload) 16) [
  | true ↦ err (record_codec_error "agent memory payload is truncated")
  | false ↦ run (whole_agent_memory (length view.payload)) view.payload
])
