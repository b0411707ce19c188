-- ===== src/Analyzer/GenerationTracker/HeapEvents.antt =====
-- The loop of `observe_heap_destroy`, and the operations of heap allocations as a whole, keep the
-- tracker valid.
use noleax.Prelude.{
  ℕ, suc, ◌+◌, ◌≤◌, List, [], ◌∷◌, ◌++◌, not, ◌≡◌, refl, ◌==◌, ◌!=◌, length, u64_max, arith,
  if◌then◌else◌,
}
use noleax.Prelude.Error.{ok, Holds, Holds-bind, Holds-if, Holds-then, Holds-mono}
use noleax.Prelude.Map.{erase, IsSorted, IsSorted-weaken, IsSorted-erase, Entries}
use noleax.Trace.Event.{Event, HeapDestroyEvent, AllocationEvent, ReallocationEvent, FreeEvent}
use noleax.Trace.Event.Validate.{
  allocation_creates_generation, reallocation_ends_old_generation,
  reallocation_creates_new_generation, free_ends_generation, heap_destroy_ends_generations,
}
use noleax.Analyzer.GenerationTracker.{
  heap_allocation, MemoryGeneration, Notice, ended, GenerationEndReason, GenerationTracker,
}
use noleax.Analyzer.GenerationTracker.Allocations.{
  require_new_allocation_id, observe_allocation, observe_reallocation, observe_free, destroy_loop,
  observe_heap_destroy,
}
use noleax.Analyzer.GenerationTracker.Valid.{IsValid, Generations, AllocationOk, replay}
use noleax.Analyzer.GenerationTracker.HeapInvariant.{add_allocation-IsValid, end_allocation-IsValid}
use mathlib.Core.List.{append_assoc}

erase_middle :
    (low id : ℕ) (g : MemoryGeneration) (front m : Generations)
    → IsSorted low (front ++ ((id, g) ∷ m))
    → (erase id (front ++ ((id, g) ∷ m)) ≡ front ++ m) × (low ≤ id)
unfolding erase
erase_middle low id g [] m s = (ground arith, s.0)
erase_middle low id g ((k, h) ∷ front) m s = ground (arith, erase_middle (suc k) id g front m s.1)

replay_ended :
    {id : ℕ} (g : MemoryGeneration) (ns : List Notice) {before after : Generations}
    (mappings : Generations) (event : Event)
    → g.kind ≡ heap_allocation
    → g.allocation_id ≡ id
    → replay ns ≡ (before, mappings)
    → erase id before ≡ after
    → replay (ended g GenerationEndReason.heap_destroyed event ∷ ns) ≡ (after, mappings)
unfolding replay
replay_ended g ns mappings event hk hid e shorter = rw (hk, e, hid, shorter)

-- What the loop keeps, over the entries `m` that it has still to visit; `front` stands for those
-- that it has passed by.
record Destroyed (seen : List ℕ) (low count : ℕ) (m : Generations) (ns : List Notice)
    (r : Generations × ℕ × List Notice) : Type 0 where
  counted : count + length m ≡ r.1 + length r.0
  sorted : IsSorted low r.0
  allocations : Entries (AllocationOk seen) r.0
  replayed :
      (front mappings : Generations)
      → IsSorted 0 (front ++ m)
      → replay ns ≡ (front ++ m, mappings)
      → replay r.2 ≡ (front ++ r.0, mappings)

destroy_loop-Destroyed :
    (heap_id : ℕ) (event : Event) (seen : List ℕ) (low count : ℕ) (m : Generations)
    (ns : List Notice)
    → IsSorted low m
    → Entries (AllocationOk seen) m
    → Holds (Destroyed seen low count m ns) (destroy_loop heap_id event m count ns)
unfolding destroy_loop
destroy_loop-Destroyed heap_id event seen low count [] ns s a = record {
  counted = refl;
  sorted = tt;
  allocations = tt;
  replayed = λ front mappings _ e. e;
}
destroy_loop-Destroyed heap_id event seen low count ((id, g) ∷ m) ns s a =
    Holds-if P (g.heap_id != heap_id) _ _
      (λ _.
        Holds-bind P (Destroyed seen (suc id) count m ns) (destroy_loop heap_id event m count ns) _
          (destroy_loop-Destroyed heap_id event seen (suc id) count m ns s.1 a.1) kept)
      (λ _.
        Holds-if P (count == u64_max) _ _ (λ _. tt)
          (λ _. Holds-mono (Destroyed seen (suc id) (count + 1) m (notice ∷ ns)) P _ erased (
            destroy_loop-Destroyed heap_id event seen (suc id) (count + 1) m (notice ∷ ns) s.1
              a.1)))
  where
    P : Generations × ℕ × List Notice → Type 0
    P = Destroyed seen low count ((id, g) ∷ m) ns

    notice : Notice
    notice = ended g GenerationEndReason.heap_destroyed event

    kept :
        (r : Generations × ℕ × List Notice)
        → Destroyed seen (suc id) count m ns r
        → Destroyed seen low count ((id, g) ∷ m) ns ((id, g) ∷ r.0, r.1, r.2)
    kept r d = record {
      counted = omega (arith, d.counted);
      sorted = (s.0, d.sorted);
      allocations = (a.0, d.allocations);
      replayed = λ front mappings sorted e. rw (append_assoc front ((id, g) ∷ []) r.0) at (
          d.replayed (front ++ ((id, g) ∷ [])) mappings (rw append_assoc sorted)
            (rw append_assoc e));
    }

    erased :
        (r : Generations × ℕ × List Notice)
        → Destroyed seen (suc id) (count + 1) m (notice ∷ ns) r
        → Destroyed seen low count ((id, g) ∷ m) ns r
    erased r d = record {
      counted = omega (arith, d.counted);
      sorted = IsSorted-weaken (suc id) low r.0 (omega (arith, s.0)) d.sorted;
      allocations = d.allocations;
      replayed = λ front mappings sorted e.
          let shorter = (erase_middle 0 id g front m sorted).0 in
          d.replayed front mappings (rw shorter at (IsSorted-erase id 0 _ sorted))
            (replay_ended g ns mappings event a.0.0 a.0.1 e shorter);
    }

pub observe_allocation-IsValid :
    (t : GenerationTracker) (event : Event) (e : AllocationEvent)
    → IsValid t
    → Holds IsValid (observe_allocation t event e)
unfolding observe_allocation
observe_allocation-IsValid t event e v =
    Holds-if IsValid (not (allocation_creates_generation event.header e)) _ _ (λ _. v)
      (λ _. add_allocation-IsValid t _ v refl)

pub observe_free-IsValid :
    (t : GenerationTracker) (event : Event) (e : FreeEvent)
    → IsValid t
    → Holds IsValid (observe_free t event e)
unfolding observe_free
observe_free-IsValid t event e v =
    Holds-if IsValid (not (free_ends_generation event.header e)) _ _ (λ _. v)
      (λ _. end_allocation-IsValid t _ _ _ _ event v)

pub observe_reallocation-IsValid :
    (t : GenerationTracker) (event : Event) (e : ReallocationEvent)
    → IsValid t
    → Holds IsValid (observe_reallocation t event e)
unfolding observe_reallocation
observe_reallocation-IsValid t event e v =
    let creates_new = reallocation_creates_new_generation event.header e in
    Holds-then IsValid
      (if creates_new then require_new_allocation_id t e.new_allocation_id else ok tt) _
      (Holds-bind IsValid IsValid
        (if reallocation_ends_old_generation event.header e then _ else ok t) _
        (Holds-if IsValid (reallocation_ends_old_generation event.header e) _ _
          (λ _. end_allocation-IsValid t _ _ _ _ event v) (λ _. v))
        (λ t' v'.
          Holds-if IsValid (not creates_new) _ _ (λ _. v')
            (λ _. add_allocation-IsValid t' _ v' refl)))

pub observe_heap_destroy-IsValid :
    (t : GenerationTracker) (event : Event) (e : HeapDestroyEvent)
    → IsValid t
    → Holds IsValid (observe_heap_destroy t event e)
unfolding observe_heap_destroy
observe_heap_destroy-IsValid t event e v =
    Holds-if IsValid (not (heap_destroy_ends_generations event.header e)) _ _ (λ _. v)
      (λ _.
        Holds-bind IsValid
          (Destroyed t.seen_allocation_ids 0 t.ended_count t.live_allocations t.notices)
          (destroy_loop e.heap_id event t.live_allocations t.ended_count t.notices) _
          (destroy_loop-Destroyed e.heap_id event t.seen_allocation_ids 0 t.ended_count
            t.live_allocations t.notices v.allocations_sorted v.allocations)
          destroyed)
  where
    destroyed :
        (r : Generations × ℕ × List Notice)
        → Destroyed t.seen_allocation_ids 0 t.ended_count t.live_allocations t.notices r
        → IsValid (record t { live_allocations = r.0; ended_count = r.1; notices = r.2 })
    destroyed r d = record {
      counted = omega (arith, d.counted, v.counted);
      fits = v.fits;
      allocations_sorted = d.sorted;
      mappings_sorted = v.mappings_sorted;
      allocations = d.allocations;
      mappings = v.mappings;
      replayed = d.replayed [] _ v.allocations_sorted v.replayed;
    }
