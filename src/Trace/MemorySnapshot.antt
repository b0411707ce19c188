-- ===== src/Trace/MemorySnapshot.antt =====
-- include/noleax/trace/memory_snapshot.hpp and src/trace/memory_snapshot.cpp: the samples of a
-- process's memory, and which are valid. `other` is a byte without a name; a category is its number.
mod Ranges
mod Tests
use noleax.Prelude.{
  ℕ, ◌+◌, ◌*◌, ◌/◌, ◌%◌, ◌^◌, List, [], ◌∷◌, Bool, true, false, not, ◌||◌, ltb, ◌==◌, ◌!=◌, length,
  sub_u64, u64_max,
}
use noleax.Prelude.Map.{contains}
use noleax.Prelude.Error.{Result, ok, memory_snapshot_validation_error, throw_if, ◌>>◌}
use Prim.Native.String.{String}

abbrev pub maximum_memory_map_regions : ℕ
maximum_memory_map_regions = 32768

abbrev pub maximum_agent_memory_categories : ℕ
maximum_agent_memory_categories = 64

pub record MemoryCounters : Type 0 where
  pub monotonic_ticks : ℕ
  pub working_set_bytes : ℕ
  pub peak_working_set_bytes : ℕ
  pub private_bytes : ℕ
  pub commit_bytes : ℕ

pub data MemoryRegionState : Type 0 where
  commit reserve : MemoryRegionState
  other : ℕ → MemoryRegionState

pub data MemoryRegionType : Type 0 where
  image mapped private : MemoryRegionType
  other : ℕ → MemoryRegionType

pub record MemoryMapRegion : Type 0 where
  pub base : ℕ
  pub size : ℕ
  pub state : MemoryRegionState
  pub type : MemoryRegionType
  pub protect : ℕ

pub record MemoryMap : Type 0 where
  pub monotonic_ticks : ℕ
  pub truncated : Bool
  pub committed_bytes : ℕ
  pub reserved_bytes : ℕ
  pub free_bytes : ℕ
  pub largest_free_bytes : ℕ
  pub regions : List MemoryMapRegion

pub data AgentMemorySampleKind : Type 0 where
  periodic baseline_pre_init baseline_post_init : AgentMemorySampleKind
  other : ℕ → AgentMemorySampleKind

pub record AgentMemoryCategorySample : Type 0 where
  pub category : ℕ
  pub flags : ℕ
  pub reserved_bytes : ℕ
  pub resident_bytes : ℕ

pub record AgentMemory : Type 0 where
  pub monotonic_ticks : ℕ
  pub kind : AgentMemorySampleKind
  pub categories : List AgentMemoryCategorySample

pub record BufferConfiguration : Type 0 where
  pub requested_bytes : ℕ
  pub effective_slots : ℕ
  pub event_size : ℕ
  pub slot_size : ℕ
  pub reserved_bytes : ℕ
  pub resident_after_init_bytes : ℕ
  pub flags : ℕ

abbrev fail_if : Bool → String → Result (Unit {0})
fail_if test message = throw_if test (memory_snapshot_validation_error message)

unfoldable pub validate_memory_counters : MemoryCounters → Result (Unit {0})
validate_memory_counters counters =
    fail_if (ltb counters.peak_working_set_bytes counters.working_set_bytes)
      "memory counters peak working set is below the current working set"

-- The loop over the regions, from the end of the last one on.
unfoldable pub validate_regions : ℕ → List MemoryMapRegion → Result (Unit {0})
validate_regions previous_end [] = ok tt
validate_regions previous_end (region ∷ regions) = do
  fail_if (region.size == 0 || ltb (sub_u64 u64_max region.size) region.base)
      "memory map region address range is invalid"
  fail_if (ltb region.base previous_end) "memory map regions overlap or are out of order"
  validate_regions ((region.base + region.size) % 2 ^ 64) regions

unfoldable pub validate_memory_map : MemoryMap → Result (Unit {0})
validate_memory_map map = do
  fail_if (ltb maximum_memory_map_regions (length map.regions))
      "memory map exceeds the region count limit"
  validate_regions 0 map.regions

abbrev is_other_kind : AgentMemorySampleKind → Bool
is_other_kind (AgentMemorySampleKind.other n) = true
is_other_kind _ = false

-- The loop over the categories: those that were seen, and the totals so far.
unfoldable pub validate_categories :
    List ℕ → ℕ → ℕ → List AgentMemoryCategorySample → Result (Unit {0})
validate_categories seen reserved_total resident_total [] = ok tt
validate_categories seen reserved_total resident_total (sample ∷ samples) = do
  fail_if (contains seen sample.category) "agent memory sample contains a duplicate category"
  fail_if (ltb sample.reserved_bytes sample.resident_bytes)
      "agent memory category resident bytes exceed the reserved bytes"
  fail_if
      (ltb (sub_u64 u64_max reserved_total) sample.reserved_bytes
        || ltb (sub_u64 u64_max resident_total) sample.resident_bytes)
      "agent memory category byte totals overflow"
  validate_categories (sample.category ∷ seen) ((reserved_total + sample.reserved_bytes) % 2 ^ 64)
      ((resident_total + sample.resident_bytes) % 2 ^ 64) samples

unfoldable pub validate_agent_memory : AgentMemory → Result (Unit {0})
validate_agent_memory memory = do
  fail_if (is_other_kind memory.kind) "agent memory sample kind is not supported"
  fail_if (ltb maximum_agent_memory_categories (length memory.categories))
      "agent memory category count is out of range"
  validate_categories [] 0 0 memory.categories

unfoldable pub validate_buffer_configuration : BufferConfiguration → Result (Unit {0})
validate_buffer_configuration configuration = do
  fail_if
      (configuration.requested_bytes == 0
        || configuration.effective_slots == 0
        || configuration.event_size == 0
        || configuration.slot_size == 0
        || ltb configuration.slot_size configuration.event_size)
      "buffer configuration slot math is invalid"
  fail_if (ltb (u64_max / configuration.slot_size) configuration.effective_slots)
      "buffer configuration reserved bytes overflow"
  fail_if
      (configuration.reserved_bytes
          != configuration.effective_slots * configuration.slot_size % 2 ^ 64
        || ltb configuration.reserved_bytes configuration.resident_after_init_bytes)
      "buffer configuration byte counts are inconsistent"
