-- ===== src/Analyzer/GenerationTracker/Allocations.antt =====
-- src/analyzer/generation_tracker.cpp: what the tracker does with heap allocations.
use noleax.Prelude.{
  ℕ, ◌+◌, List, [], ◌∷◌, Bool, true, false, not, ◌&&◌, Option, none, some, if◌then◌else◌, ◌==◌,
  ◌!=◌, u64_max,
}
use noleax.Prelude.Error.{Result, ok, err, generation_state_error, ◌>>=◌, ◌>>◌, throw_if}
use noleax.Prelude.Map.{contains, find, emplace, erase}
use noleax.Trace.Identifiers.{is_valid}
use noleax.Trace.Event.{
  Event, HeapDestroyEvent, AllocationEvent, ReallocationEvent, FreeEvent, is_freed,
}
use noleax.Trace.Event.Validate.{
  allocation_creates_generation, reallocation_ends_old_generation,
  reallocation_creates_new_generation, free_ends_generation, heap_destroy_ends_generations,
}
use noleax.Analyzer.GenerationTracker.{
  heap_allocation, GenerationEndReason, MemoryGeneration, Notice, created, ended, GenerationTracker,
}
use Prim.Native.String.{String}

abbrev pub Tracked : Type 0
Tracked = Result GenerationTracker

unfoldable pub checked_increment : ℕ → String → Result ℕ
checked_increment value message =
    if value == u64_max then err (generation_state_error message) else ok (value + 1)

unfoldable pub heap_ids_conflict : ℕ → ℕ → Bool
heap_ids_conflict left right = is_valid left && is_valid right && left != right

unfoldable pub require_new_allocation_id : GenerationTracker → ℕ → Result (Unit {0})
require_new_allocation_id t id = do
  throw_if (not (is_valid id))
      (generation_state_error "new allocation generation requires an allocation_id")
  throw_if (contains t.seen_allocation_ids id)
      (generation_state_error "allocation_id is reused by more than one generation")

abbrev pub is_present {ℓ} : {A : Type ℓ} → Option A → Bool
is_present none = false
is_present (some a) = true

unfoldable pub add_allocation : GenerationTracker → MemoryGeneration → Tracked
unfolding require_new_allocation_id checked_increment
add_allocation t generation = do
  let id = generation.allocation_id
  require_new_allocation_id t id
  throw_if (is_present (find id t.live_allocations))
      (generation_state_error "allocation_id is already live")
  count ← checked_increment t.created_count "created generation count overflow"
  ok (record t {
    seen_allocation_ids = id ∷ t.seen_allocation_ids;
    live_allocations = emplace id generation t.live_allocations;
    created_count = count;
    notices = created generation ∷ t.notices;
  })

-- `end_allocation`, once the generation is found.
unfoldable pub end_live_allocation :
    GenerationTracker → ℕ → ℕ → ℕ → GenerationEndReason → Event → MemoryGeneration → Tracked
unfolding heap_ids_conflict checked_increment
end_live_allocation t id expected_address expected_heap_id reason event generation = do
  throw_if (generation.address != expected_address)
      (generation_state_error "allocation end address does not match its allocation_id")
  throw_if (heap_ids_conflict generation.heap_id expected_heap_id)
      (generation_state_error "allocation end heap_id does not match its allocation_id")
  count ← checked_increment t.ended_count "ended generation count overflow"
  ok (record t {
    live_allocations = erase id t.live_allocations;
    ended_count = count;
    notices = ended generation reason event ∷ t.notices;
  })

unfoldable pub end_allocation :
    GenerationTracker → ℕ → ℕ → ℕ → GenerationEndReason → Event → Tracked
unfolding checked_increment end_live_allocation
end_allocation t id expected_address expected_heap_id reason event =
    elim (find id t.live_allocations) [
      | none ↦ do
        count ←
            checked_increment t.orphaned_allocation_end_count
              "orphaned allocation end count overflow"
        ok (record t { orphaned_allocation_end_count = count })
      | some generation ↦
          end_live_allocation t id expected_address expected_heap_id reason event generation
    ]

unfoldable pub observe_allocation : GenerationTracker → Event → AllocationEvent → Tracked
observe_allocation t event allocation =
    if not (allocation_creates_generation event.header allocation)
    then ok t
    else add_allocation t (record {
      kind = heap_allocation;
      allocation_id = allocation.allocation_id;
      mapping_id = 0;
      heap_id = allocation.heap_id;
      heap_handle = allocation.heap_handle;
      address = allocation.result_address;
      size = allocation.requested_size;
      created_by = event;
    })

unfoldable pub observe_reallocation : GenerationTracker → Event → ReallocationEvent → Tracked
observe_reallocation t event reallocation = do
  let creates_new = reallocation_creates_new_generation event.header reallocation
  if creates_new then require_new_allocation_id t reallocation.new_allocation_id else ok tt
  t' ←
      if reallocation_ends_old_generation event.header reallocation
      then end_allocation t reallocation.old_allocation_id reallocation.old_address
          reallocation.heap_id
          (if is_freed reallocation.effect
            then GenerationEndReason.reallocation_freed
            else GenerationEndReason.reallocated)
          event
      else ok t
  if not creates_new
      then ok t'
      else add_allocation t' (record {
        kind = heap_allocation;
        allocation_id = reallocation.new_allocation_id;
        mapping_id = 0;
        heap_id = reallocation.heap_id;
        heap_handle = reallocation.heap_handle;
        address = reallocation.result_address;
        size = reallocation.requested_size;
        created_by = event;
      })

unfoldable pub observe_free : GenerationTracker → Event → FreeEvent → Tracked
observe_free t event free_event =
    if not (free_ends_generation event.header free_event)
    then ok t
    else end_allocation t free_event.allocation_id free_event.address free_event.heap_id
        GenerationEndReason.freed event

-- The loop over the live allocations: those that stay, the count, and the notices.
unfoldable pub destroy_loop :
    ℕ
    → Event
    → List (ℕ × MemoryGeneration)
    → ℕ
    → List Notice
    → Result (List (ℕ × MemoryGeneration) × ℕ × List Notice)
destroy_loop heap_id event [] count notices = ok ([], count, notices)
destroy_loop heap_id event ((id, generation) ∷ m) count notices =
    let kept = destroy_loop heap_id event m count notices in
    let erased =
      destroy_loop heap_id event m (count + 1)
        (ended generation GenerationEndReason.heap_destroyed event ∷ notices) in
    if generation.heap_id != heap_id
    then kept >>= (λ r. ok ((id, generation) ∷ r.0, r.1, r.2))
    else if count == u64_max
    then err (generation_state_error "ended generation count overflow")
    else erased

unfoldable pub observe_heap_destroy : GenerationTracker → Event → HeapDestroyEvent → Tracked
observe_heap_destroy t event heap_destroy =
    if not (heap_destroy_ends_generations event.header heap_destroy)
    then ok t
    else destroy_loop heap_destroy.heap_id event t.live_allocations t.ended_count t.notices
      >>= (λ r. ok (record t { live_allocations = r.0; ended_count = r.1; notices = r.2 }))
