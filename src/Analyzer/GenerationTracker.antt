-- ===== src/Analyzer/GenerationTracker.antt =====
-- include/noleax/analyzer/generation_tracker.hpp: the state of the tracker.
-- The callbacks are called for their effect on the client only, so the model keeps what they are
-- called with, newest first. An exception leaves the tracker to be discarded, and the model drops it.
pub mod Allocations
pub mod Mappings
pub mod Observe
pub mod Valid
pub mod HeapInvariant
pub mod HeapEvents
pub mod MappingInvariant
pub mod MappingEvents
pub mod Fuel
pub mod Lookup
pub mod Laws
mod Tests
use noleax.Prelude.{ℕ, List, [], Option, none, some, map, ◌++◌, ◌%◌, ◌+◌, ◌^◌, length}
use noleax.Prelude.Map.{find}
use noleax.Trace.Event.{Event}
use noleax.Trace.IntervalSet.{IntervalSet}

pub data GenerationKind : Type 0 where
  heap_allocation virtual_allocation mapped_view : GenerationKind

pub data GenerationEndReason : Type 0 where
  reallocated reallocation_freed freed heap_destroyed virtual_freed unmapped : GenerationEndReason

pub record MemoryGeneration : Type 0 where
  pub kind : GenerationKind
  pub allocation_id : ℕ
  pub mapping_id : ℕ
  pub heap_id : ℕ
  pub heap_handle : ℕ
  pub address : ℕ
  pub size : ℕ
  pub created_by : Event

-- The value of a live interval carries nothing; the source stores the byte 0.
pub record MappingState : Type 0 where
  pub generation : MemoryGeneration
  pub live : IntervalSet ℕ

-- A call of `on_created`, `on_ended` or `on_changed`.
pub data Notice : Type 0 where
  created : MemoryGeneration → Notice
  ended : MemoryGeneration → GenerationEndReason → Event → Notice
  changed : MemoryGeneration → Event → Notice

pub record GenerationTracker : Type 0 where
  pub live_allocations : List (ℕ × MemoryGeneration)
  pub live_mappings : List (ℕ × MappingState)
  pub seen_allocation_ids : List ℕ
  pub seen_mapping_ids : List ℕ
  pub created_count : ℕ
  pub ended_count : ℕ
  pub orphaned_allocation_end_count : ℕ
  pub orphaned_mapping_end_count : ℕ
  pub notices : List Notice

abbrev pub new_tracker : GenerationTracker
new_tracker = record {
  live_allocations = [];
  live_mappings = [];
  seen_allocation_ids = [];
  seen_mapping_ids = [];
  created_count = 0;
  ended_count = 0;
  orphaned_allocation_end_count = 0;
  orphaned_mapping_end_count = 0;
  notices = [];
}

unfoldable pub find_allocation : GenerationTracker → ℕ → Option MemoryGeneration
find_allocation t id = find id t.live_allocations

unfoldable pub find_mapping : GenerationTracker → ℕ → Option MemoryGeneration
find_mapping t id = elim (find id t.live_mappings) [
  | none ↦ none
  | some state ↦ some state.generation
]

unfoldable pub live_generations : GenerationTracker → List MemoryGeneration
live_generations t =
    map (λ (e : ℕ × MemoryGeneration). e.1) t.live_allocations
    ++ map (λ (e : ℕ × MappingState). e.1.generation) t.live_mappings

unfoldable pub live_count : GenerationTracker → ℕ
live_count t = (length t.live_allocations + length t.live_mappings) % 2 ^ 64
