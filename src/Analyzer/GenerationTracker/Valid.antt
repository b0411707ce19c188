-- ===== src/Analyzer/GenerationTracker/Valid.antt =====
-- What holds of the tracker between two events.
use noleax.Prelude.{
  ℕ, ◌+◌, ◌≤◌, List, [], ◌∷◌, true, ◌≡◌, ◌≢◌, refl, All, length, IsU64, u64_max, arith,
}
use noleax.Prelude.Map.{contains, emplace, erase, assign, map_values, IsSorted, Entries}
use noleax.Trace.IntervalSet.Reference.{IsOrdered, bytes}
use noleax.Analyzer.GenerationTracker.{
  GenerationKind, heap_allocation, MemoryGeneration, MappingState, Notice, created, ended, changed,
  GenerationTracker, new_tracker,
}

abbrev pub Generations : Type 0
Generations = List (ℕ × MemoryGeneration)

-- A client that follows the notices: the allocations and the mappings that it takes for live.
abbrev pub replay_created :
    GenerationKind → MemoryGeneration → Generations × Generations → Generations × Generations
replay_created heap_allocation g s = (emplace g.allocation_id g s.0, s.1)
replay_created _ g s = (s.0, emplace g.mapping_id g s.1)

abbrev pub replay_ended :
    GenerationKind → MemoryGeneration → Generations × Generations → Generations × Generations
replay_ended heap_allocation g s = (erase g.allocation_id s.0, s.1)
replay_ended _ g s = (s.0, erase g.mapping_id s.1)

-- The notices are newest first.
unfoldable pub replay : List Notice → Generations × Generations
replay [] = ([], [])
replay (created g ∷ ns) = replay_created g.kind g (replay ns)
replay (ended g reason event ∷ ns) = replay_ended g.kind g (replay ns)
replay (changed g event ∷ ns) = let s = replay ns in (s.0, assign g.mapping_id g s.1)

-- A live allocation under its identifier, which has been seen.
abbrev pub AllocationOk : List ℕ → ℕ → MemoryGeneration → Type 0
AllocationOk seen id g =
    (g.kind ≡ heap_allocation) × (g.allocation_id ≡ id) × (contains seen id ≡ true)

-- A live mapping under its identifier: its fragments are ordered and its size is their bytes.
abbrev pub MappingOk : List ℕ → ℕ → MappingState → Type 0
MappingOk seen id s =
    (s.generation.kind ≢ heap_allocation)
    × (s.generation.mapping_id ≡ id)
    × (contains seen id ≡ true)
    × IsOrdered 0 s.live
    × All (λ f. IsU64 f.end) s.live
    × (s.generation.size ≡ bytes s.live)

abbrev pub generation_of : MappingState → MemoryGeneration
generation_of s = s.generation

pub record IsValid (t : GenerationTracker) : Type 0 where
  pub counted :
      t.created_count ≡ t.ended_count + (length t.live_allocations + length t.live_mappings)
  pub fits : t.created_count ≤ u64_max
  pub allocations_sorted : IsSorted 0 t.live_allocations
  pub mappings_sorted : IsSorted 0 t.live_mappings
  pub allocations : Entries (AllocationOk t.seen_allocation_ids) t.live_allocations
  pub mappings : Entries (MappingOk t.seen_mapping_ids) t.live_mappings
  pub replayed : replay t.notices ≡ (t.live_allocations, map_values generation_of t.live_mappings)

pub new_tracker-IsValid : IsValid new_tracker
unfolding replay
new_tracker-IsValid = record {
  counted = refl;
  fits = omega arith;
  allocations_sorted = tt;
  mappings_sorted = tt;
  allocations = tt;
  mappings = tt;
  replayed = refl;
}
