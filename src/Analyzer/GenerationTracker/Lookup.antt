-- ===== src/Analyzer/GenerationTracker/Lookup.antt =====
-- What an event does to the live generation under each identifier.
use noleax.Prelude.{
  ℕ, suc, ◌+◌, List, [], ◌∷◌, Bool, not, ◌&&◌, ◌≡◌, refl, Option, none, some, ◌==◌, ◌!=◌, u64_max,
  arith, if◌then◌else◌,
}
use noleax.Prelude.Error.{
  ok, Holds, Holds-ok, Holds-then, Holds-bind, Holds-if, Holds-mono, Holds-intro,
}
use noleax.Prelude.Map.{find, find-emplace, find-erase, find-below, IsSorted}
use noleax.Trace.Event.{Event, HeapDestroyEvent, AllocationEvent, ReallocationEvent, FreeEvent}
use noleax.Trace.Event.Validate.{
  allocation_creates_generation, reallocation_ends_old_generation,
  reallocation_creates_new_generation, free_ends_generation, heap_destroy_ends_generations,
}
use noleax.Analyzer.GenerationTracker.{
  heap_allocation, MemoryGeneration, Notice, GenerationEndReason, GenerationTracker,
  find_allocation,
}
use noleax.Analyzer.GenerationTracker.Allocations.{
  require_new_allocation_id, add_allocation, end_allocation, observe_allocation,
  observe_reallocation, observe_free, destroy_loop, observe_heap_destroy,
}
use noleax.Analyzer.GenerationTracker.Valid.{IsValid}

add_allocation-find :
    (t t' : GenerationTracker) (g : MemoryGeneration) (k : ℕ)
    → add_allocation t g ≡ ok t'
    → find k t'.live_allocations
      ≡ (if g.allocation_id == k then some g else find k t.live_allocations)
unfolding add_allocation
add_allocation-find t t' g k h = ground (arith, find-emplace g.allocation_id k g t.live_allocations)

end_allocation-find :
    (t t' : GenerationTracker) (id address heap_id : ℕ) (reason : GenerationEndReason)
    (event : Event) (k : ℕ)
    → IsValid t
    → end_allocation t id address heap_id reason event ≡ ok t'
    → find k t'.live_allocations ≡ (if id == k then none else find k t.live_allocations)
unfolding end_allocation
end_allocation-find t t' id address heap_id reason event k v h =
    ground (arith, find-erase id k 0 t.live_allocations v.allocations_sorted)

-- The generation that an allocation creates.
abbrev pub allocated : Event → AllocationEvent → MemoryGeneration
allocated event e = record {
  kind = heap_allocation;
  allocation_id = e.allocation_id;
  mapping_id = 0;
  heap_id = e.heap_id;
  heap_handle = e.heap_handle;
  address = e.result_address;
  size = e.requested_size;
  created_by = event;
}

-- The generation that a reallocation creates.
abbrev pub reallocated : Event → ReallocationEvent → MemoryGeneration
reallocated event e = record {
  kind = heap_allocation;
  allocation_id = e.new_allocation_id;
  mapping_id = 0;
  heap_id = e.heap_id;
  heap_handle = e.heap_handle;
  address = e.result_address;
  size = e.requested_size;
  created_by = event;
}

-- An allocation that the tracker took is live under its identifier if it creates a generation; what
-- is live under any other identifier stays.
pub find_allocation-observe_allocation :
    (t t' : GenerationTracker) (event : Event) (e : AllocationEvent) (k : ℕ)
    → observe_allocation t event e ≡ ok t'
    → find_allocation t' k ≡ (
        if allocation_creates_generation event.header e && e.allocation_id == k
        then some (allocated event e)
        else find_allocation t k)
unfolding observe_allocation find_allocation
find_allocation-observe_allocation t t' event e k h =
    ground (arith, add_allocation-find t t' (allocated event e) k)

-- A free that a valid tracker took ends what is live under its identifier, if it ends a generation,
-- and leaves every other identifier as it was.
pub find_allocation-observe_free :
    (t t' : GenerationTracker) (event : Event) (e : FreeEvent) (k : ℕ)
    → IsValid t
    → observe_free t event e ≡ ok t'
    → find_allocation t' k ≡ (
        if free_ends_generation event.header e && e.allocation_id == k
        then none
        else find_allocation t k)
unfolding observe_free find_allocation
find_allocation-observe_free t t' event e k v h = ground (
  arith,
  end_allocation-find t t' e.allocation_id e.address e.heap_id GenerationEndReason.freed event k v,
)

-- A reallocation that a valid tracker took has its new generation live, if it creates one, has
-- nothing live under the old identifier, if it ends that and does not take it again, and leaves
-- every other identifier as it was.
pub find_allocation-observe_reallocation :
    (t t' : GenerationTracker) (event : Event) (e : ReallocationEvent) (k : ℕ)
    → IsValid t
    → observe_reallocation t event e ≡ ok t'
    → find_allocation t' k ≡ (
        if reallocation_creates_new_generation event.header e && e.new_allocation_id == k
        then some (reallocated event e)
        else if reallocation_ends_old_generation event.header e && e.old_allocation_id == k
        then none
        else find_allocation t k)
unfolding observe_reallocation find_allocation
find_allocation-observe_reallocation t t' event e k v h =
    Holds-ok P (observe_reallocation t event e) h (
      Holds-then P (if creates then require_new_allocation_id t e.new_allocation_id else ok tt) _ (
        Holds-bind P Q (if ends then _ else ok t) _
          (Holds-if Q ends _ _
            (λ c. Holds-intro Q _ λ t1 h1.
              rw (c, ◌&&◌)
                (end_allocation-find t t1 e.old_allocation_id e.old_address e.heap_id _ event k v
                  h1))
            (λ c. rw c refl))
          (λ t1 q.
            Holds-if P (not creates) _ _ (λ c. ground arith)
              (λ c.
                Holds-intro P _
                  λ t2 h2. ground (arith, add_allocation-find t1 t2 (reallocated event e) k h2)))))
  where
    creates : Bool
    creates = reallocation_creates_new_generation event.header e

    ends : Bool
    ends = reallocation_ends_old_generation event.header e

    after_end : Option MemoryGeneration
    after_end = if ends && e.old_allocation_id == k then none else find k t.live_allocations

    Q : GenerationTracker → Type 0
    Q t1 = find k t1.live_allocations ≡ after_end

    P : GenerationTracker → Type 0
    P t2 =
        find k t2.live_allocations
        ≡ (if creates && e.new_allocation_id == k then some (reallocated event e) else after_end)

-- What a destroyed heap leaves of the entry under an identifier.
abbrev pub outside_heap : ℕ → Option MemoryGeneration → Option MemoryGeneration
outside_heap heap_id none = none
outside_heap heap_id (some g) = if g.heap_id != heap_id then some g else none

destroy_loop-find :
    (heap_id : ℕ) (event : Event) (low count : ℕ) (m : List (ℕ × MemoryGeneration))
    (ns : List Notice) (k : ℕ)
    → IsSorted low m
    → Holds
        (λ r. find k r.0 ≡ outside_heap heap_id (find k m))
        (destroy_loop heap_id event m count ns)
unfolding destroy_loop find
destroy_loop-find heap_id event low count [] ns k s = refl
destroy_loop-find heap_id event low count ((id, g) ∷ m) ns k s =
    Holds-if P (g.heap_id != heap_id) _ _
      (λ c.
        Holds-bind P Q (destroy_loop heap_id event m count ns) _
          (destroy_loop-find heap_id event (suc id) count m ns k s.1) (λ r q. ground arith))
      (λ c.
        Holds-if P (count == u64_max) _ _ (λ _. tt)
          (λ _.
            Holds-mono Q P _ (λ r q. ground (arith, find-below k (suc id) m s.1))
              (destroy_loop-find heap_id event (suc id) (count + 1) m _ k s.1)))
  where
    Q : List (ℕ × MemoryGeneration) × ℕ × List Notice → Type 0
    Q r = find k r.0 ≡ outside_heap heap_id (find k m)

    P : List (ℕ × MemoryGeneration) × ℕ × List Notice → Type 0
    P r = find k r.0 ≡ outside_heap heap_id (find k ((id, g) ∷ m))

-- The destruction of a heap that a valid tracker took ends every live allocation of that heap, if it
-- ends generations, and leaves the others as they were.
pub find_allocation-observe_heap_destroy :
    (t t' : GenerationTracker) (event : Event) (e : HeapDestroyEvent) (k : ℕ)
    → IsValid t
    → observe_heap_destroy t event e ≡ ok t'
    → find_allocation t' k ≡ (
        if heap_destroy_ends_generations event.header e
        then outside_heap e.heap_id (find_allocation t k)
        else find_allocation t k)
unfolding observe_heap_destroy find_allocation
find_allocation-observe_heap_destroy t t' event e k v h =
    Holds-ok P (observe_heap_destroy t event e) h (
      Holds-if P (not (heap_destroy_ends_generations event.header e)) _ _ (λ c. ground arith)
        (λ c.
          Holds-bind P (λ r. find k r.0 ≡ outside_heap e.heap_id (find k t.live_allocations))
            (destroy_loop e.heap_id event t.live_allocations t.ended_count t.notices) _
            (destroy_loop-find e.heap_id event 0 t.ended_count t.live_allocations t.notices k
              v.allocations_sorted)
            (λ r q. ground arith)))
  where
    P : GenerationTracker → Type 0
    P t2 = find k t2.live_allocations ≡ (
        if heap_destroy_ends_generations event.header e
        then outside_heap e.heap_id (find k t.live_allocations)
        else find k t.live_allocations)
