-- ===== src/Analyzer/GenerationTracker/HeapInvariant.antt =====
-- The operations on heap allocations keep the tracker valid.
use noleax.Prelude.{
  ℕ, ◌+◌, List, ◌∷◌, true, false, ◌≡◌, ◌≢◌, refl, Option, none, some, ◌==◌, ◌!=◌, u64_max, arith,
  inl, inr, Option-cases, Bool-cases,
}
use noleax.Prelude.Error.{Result, ◌>>=◌, Holds, Holds-throw_if, Holds-then}
use noleax.Prelude.Map.{
  contains, find, emplace, erase, Entries-mono, Entries-emplace, Entries-erase, Entries-find,
  IsSorted-emplace, IsSorted-erase, length-emplace, length-erase,
}
use noleax.Trace.Event.{Event}
use noleax.Analyzer.GenerationTracker.{
  heap_allocation, MemoryGeneration, created, ended, GenerationEndReason, GenerationTracker,
}
use noleax.Analyzer.GenerationTracker.Allocations.{
  checked_increment, is_present, add_allocation, end_allocation, require_new_allocation_id,
  heap_ids_conflict,
}
use noleax.Analyzer.GenerationTracker.Valid.{IsValid, AllocationOk, replay}
use Prim.Native.String.{String}

pub contains-cons : (id : ℕ) (seen : List ℕ) → contains (id ∷ seen) id ≡ true
contains-cons id seen = ground arith

pub contains_of_tail :
    (id k : ℕ) (seen : List ℕ) → contains seen k ≡ true → contains (id ∷ seen) k ≡ true
contains_of_tail id k seen h = ground arith

pub is_present-false {ℓ} : {A : Type ℓ} (o : Option A) → is_present o ≡ false → o ≡ none
is_present-false none h = refl
is_present-false (some a) h = cc

-- A guarantee of what follows a count, given that the count did not overflow.
pub Holds-checked_increment {ℓ} :
    {A : Type ℓ} (P : A → Type 0) (value : ℕ) (message : String) (f : ℕ → Result A)
    → (value ≢ u64_max → Holds P (f (value + 1)))
    → Holds P (checked_increment value message >>= f)
unfolding checked_increment
Holds-checked_increment P value message f h = elim (Bool-cases (value == u64_max)) [
  | inl e ↦ rw e tt
  | inr e ↦ rw e (h (ground arith))
]

IsValid-created :
    (t : GenerationTracker) (g : MemoryGeneration)
    → IsValid t
    → g.kind ≡ heap_allocation
    → find g.allocation_id t.live_allocations ≡ none
    → t.created_count ≢ u64_max
    → IsValid (record t {
      seen_allocation_ids = g.allocation_id ∷ t.seen_allocation_ids;
      live_allocations = emplace g.allocation_id g t.live_allocations;
      created_count = t.created_count + 1;
      notices = created g ∷ t.notices;
    })
unfolding replay
IsValid-created t g v hk hn hc =
    let id = g.allocation_id in
    let seen = t.seen_allocation_ids in
    record {
      counted = omega (arith, length-emplace id g t.live_allocations hn, v.counted);
      fits = omega (arith, v.fits);
      allocations_sorted =
          IsSorted-emplace id 0 g t.live_allocations (omega arith) v.allocations_sorted;
      mappings_sorted = v.mappings_sorted;
      allocations =
          Entries-emplace (AllocationOk (id ∷ seen)) id g t.live_allocations
            (hk, refl, contains-cons id seen)
            (Entries-mono (AllocationOk seen) (AllocationOk (id ∷ seen)) t.live_allocations
              (λ k w h. (h.0, h.1, contains_of_tail id k seen h.2)) v.allocations);
      mappings = v.mappings;
      replayed = rw (hk, v.replayed);
    }

IsValid-ended :
    (t : GenerationTracker) (id : ℕ) (g : MemoryGeneration) (reason : GenerationEndReason)
    (event : Event)
    → IsValid t
    → find id t.live_allocations ≡ some g
    → IsValid (record t {
      live_allocations = erase id t.live_allocations;
      ended_count = t.ended_count + 1;
      notices = ended g reason event ∷ t.notices;
    })
unfolding replay
IsValid-ended t id g reason event v hf =
    let (hk, hid, _) =
      Entries-find (AllocationOk t.seen_allocation_ids) id g t.live_allocations v.allocations hf in
    record {
      counted = omega (arith, length-erase id g t.live_allocations hf, v.counted);
      fits = v.fits;
      allocations_sorted = IsSorted-erase id 0 t.live_allocations v.allocations_sorted;
      mappings_sorted = v.mappings_sorted;
      allocations =
          Entries-erase (AllocationOk t.seen_allocation_ids) id t.live_allocations v.allocations;
      mappings = v.mappings;
      replayed = rw (hk, v.replayed, hid);
    }

pub add_allocation-IsValid :
    (t : GenerationTracker) (g : MemoryGeneration)
    → IsValid t
    → g.kind ≡ heap_allocation
    → Holds IsValid (add_allocation t g)
unfolding add_allocation
add_allocation-IsValid t g v hk =
    Holds-then IsValid (require_new_allocation_id t g.allocation_id) _ (
      Holds-throw_if IsValid (is_present (find g.allocation_id t.live_allocations)) _ _ λ hp.
        Holds-checked_increment IsValid t.created_count _ _
          λ hc. IsValid-created t g v hk (is_present-false _ hp) hc)

IsValid-orphan :
    (t : GenerationTracker) (n : ℕ)
    → IsValid t
    → IsValid (record t { orphaned_allocation_end_count = n })
IsValid-orphan t n v = record {
  counted = v.counted;
  fits = v.fits;
  allocations_sorted = v.allocations_sorted;
  mappings_sorted = v.mappings_sorted;
  allocations = v.allocations;
  mappings = v.mappings;
  replayed = v.replayed;
}

pub end_allocation-IsValid :
    (t : GenerationTracker) (id address heap_id : ℕ) (reason : GenerationEndReason) (event : Event)
    → IsValid t
    → Holds IsValid (end_allocation t id address heap_id reason event)
unfolding end_allocation
end_allocation-IsValid t id address heap_id reason event v =
    elim (Option-cases (find id t.live_allocations)) [
      | inl e ↦
          rw (e, end_allocation)
            (Holds-checked_increment IsValid t.orphaned_allocation_end_count _ _
              λ _. IsValid-orphan t _ v)
      | inr (g, e) ↦
          rw (e, end_allocation)
            (Holds-throw_if IsValid (g.address != address) _ _ λ _.
              Holds-throw_if IsValid (heap_ids_conflict g.heap_id heap_id) _ _ λ _.
                Holds-checked_increment IsValid t.ended_count _ _
                  λ _. IsValid-ended t id g reason event v e)
    ]
