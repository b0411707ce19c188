-- ===== src/Analyzer/GenerationTracker/MappingInvariant.antt =====
-- The operations on mappings keep the tracker valid.
use noleax.Prelude.{
  ℕ, ◌+◌, ◌∷◌, ◌≡◌, ◌≢◌, refl, sym, ◌∙◌, none, some, ◌!=◌, u64_max, IsU64, All, arith, inl, inr,
  Bool-cases,
}
use noleax.Prelude.Error.{Holds, Holds-throw_if, Holds-then}
use noleax.Prelude.Map.{
  find, emplace, erase, assign, assign_same, map_values, Entries-mono, Entries-emplace,
  Entries-erase, Entries-assign, Entries-find, IsSorted-emplace, IsSorted-erase, IsSorted-assign,
  length-emplace, length-erase, length-assign, map_values-emplace, map_values-erase,
  map_values-assign, map_values-find,
}
use noleax.Trace.IntervalSet as Intervals
use noleax.Trace.IntervalSet.{IntervalSet}
use noleax.Trace.IntervalSet.Reference.{IsOrdered, bytes}
use noleax.Trace.IntervalSet.Laws.{total_bytes-bytes}
use noleax.Trace.Event.{Event}
use noleax.Analyzer.GenerationTracker.{
  GenerationKind, heap_allocation, MemoryGeneration, MappingState, created, ended, changed,
  GenerationEndReason, GenerationTracker,
}
use noleax.Analyzer.GenerationTracker.Allocations.{is_present}
use noleax.Analyzer.GenerationTracker.Mappings.{
  add_mapping, require_new_mapping_id, close_mapping, orphaned_mapping_end, set_live,
}
use noleax.Analyzer.GenerationTracker.Valid.{
  IsValid, MappingOk, generation_of, replay, replay_created, replay_ended,
}
use noleax.Analyzer.GenerationTracker.HeapInvariant.{
  contains-cons, contains_of_tail, is_present-false, Holds-checked_increment,
}

-- A live set that a mapping may have.
pub record LiveOk (live : IntervalSet ℕ) : Type 0 where
  pub ordered : IsOrdered 0 live
  pub fits : All (λ f. IsU64 f.end) live

replay_created_mapping :
    (k : GenerationKind) (g : MemoryGeneration) (s : _)
    → k ≢ heap_allocation
    → replay_created k g s ≡ (s.0, emplace g.mapping_id g s.1)
replay_created_mapping heap_allocation g s h = absurd (h refl)
replay_created_mapping _ g s h = refl

replay_ended_mapping :
    (k : GenerationKind) (g : MemoryGeneration) (s : _)
    → k ≢ heap_allocation
    → replay_ended k g s ≡ (s.0, erase g.mapping_id s.1)
replay_ended_mapping heap_allocation g s h = absurd (h refl)
replay_ended_mapping _ g s h = refl

IsValid-mapping_created :
    (t : GenerationTracker) (state : MappingState)
    → IsValid t
    → state.generation.kind ≢ heap_allocation
    → LiveOk state.live
    → state.generation.size ≡ bytes state.live
    → find state.generation.mapping_id t.live_mappings ≡ none
    → t.created_count ≢ u64_max
    → IsValid (record t {
      seen_mapping_ids = state.generation.mapping_id ∷ t.seen_mapping_ids;
      live_mappings = emplace state.generation.mapping_id state t.live_mappings;
      created_count = t.created_count + 1;
      notices = created state.generation ∷ t.notices;
    })
unfolding replay
IsValid-mapping_created t state v hk ho hs hn hc =
    let g = state.generation in
    let id = g.mapping_id in
    let seen = t.seen_mapping_ids in
    record {
      counted = omega (arith, length-emplace id state t.live_mappings hn, v.counted);
      fits = omega (arith, v.fits);
      allocations_sorted = v.allocations_sorted;
      mappings_sorted = IsSorted-emplace id 0 state t.live_mappings (omega arith) v.mappings_sorted;
      allocations = v.allocations;
      mappings =
          Entries-emplace (MappingOk (id ∷ seen)) id state t.live_mappings
            (hk, refl, contains-cons id seen, ho.ordered, ho.fits, hs)
            (Entries-mono (MappingOk seen) (MappingOk (id ∷ seen)) t.live_mappings
              (λ k w h. (h.0, h.1, contains_of_tail id k seen h.2, h.3, h.4, h.5)) v.mappings);
      replayed = rw (
        v.replayed,
        replay_created_mapping g.kind g (t.live_allocations, _) hk,
        map_values-emplace,
      );
    }

IsValid-mapping_ended :
    (t : GenerationTracker) (id : ℕ) (state : MappingState) (reason : GenerationEndReason)
    (event : Event)
    → IsValid t
    → find id t.live_mappings ≡ some state
    → IsValid (record t {
      live_mappings = erase id t.live_mappings;
      ended_count = t.ended_count + 1;
      notices = ended state.generation reason event ∷ t.notices;
    })
unfolding replay
IsValid-mapping_ended t id state reason event v hf =
    let seen = t.seen_mapping_ids in
    let m = Entries-find (MappingOk seen) id state t.live_mappings v.mappings hf in
    record {
      counted = omega (arith, length-erase id state t.live_mappings hf, v.counted);
      fits = v.fits;
      allocations_sorted = v.allocations_sorted;
      mappings_sorted = IsSorted-erase id 0 t.live_mappings v.mappings_sorted;
      allocations = v.allocations;
      mappings = Entries-erase (MappingOk seen) id t.live_mappings v.mappings;
      replayed = rw (
        v.replayed,
        replay_ended_mapping state.generation.kind state.generation (t.live_allocations, _) m.0,
        m.1,
        map_values-erase,
      );
    }

-- The live set of a mapping is replaced, its size follows, and the client hears of it.
pub IsValid-resized :
    (t : GenerationTracker) (id : ℕ) (state : MappingState) (event : Event) (live : IntervalSet ℕ)
    → IsValid t
    → find id t.live_mappings ≡ some state
    → LiveOk live
    → let g = record (state.generation) { size = Intervals.total_bytes live } in
      IsValid (record t {
        live_mappings = assign id (record { generation = g; live = live }) t.live_mappings;
        notices = changed g event ∷ t.notices;
      })
unfolding replay
IsValid-resized t id state event live v hf ho =
    let seen = t.seen_mapping_ids in
    let m = Entries-find (MappingOk seen) id state t.live_mappings v.mappings hf in
    let g : MemoryGeneration = record (state.generation) { size = Intervals.total_bytes live } in
    let state' : MappingState = record { generation = g; live = live } in
    record {
      counted = omega (arith, length-assign id state' t.live_mappings, v.counted);
      fits = v.fits;
      allocations_sorted = v.allocations_sorted;
      mappings_sorted = IsSorted-assign id 0 state' t.live_mappings v.mappings_sorted;
      allocations = v.allocations;
      mappings =
          Entries-assign (MappingOk seen) id state' t.live_mappings
            (m.0, m.1, m.2, ho.ordered, ho.fits, total_bytes-bytes 0 live ho.ordered ho.fits)
            v.mappings;
      replayed = rw (v.replayed, m.1, map_values-assign);
    }

-- The live set is replaced by one of as many bytes.
IsValid-replaced :
    (t : GenerationTracker) (id : ℕ) (state : MappingState) (live : IntervalSet ℕ)
    → IsValid t
    → find id t.live_mappings ≡ some state
    → LiveOk live
    → Intervals.total_bytes live ≡ state.generation.size
    → IsValid
        (record t { live_mappings = assign id (record state { live = live }) t.live_mappings })
IsValid-replaced t id state live v hf ho hs =
    let seen = t.seen_mapping_ids in
    let m = Entries-find (MappingOk seen) id state t.live_mappings v.mappings hf in
    let state' : MappingState = record state { live = live } in
    record {
      counted = omega (arith, length-assign id state' t.live_mappings, v.counted);
      fits = v.fits;
      allocations_sorted = v.allocations_sorted;
      mappings_sorted = IsSorted-assign id 0 state' t.live_mappings v.mappings_sorted;
      allocations = v.allocations;
      mappings =
          Entries-assign (MappingOk seen) id state' t.live_mappings
            (
              m.0,
              m.1,
              m.2,
              ho.ordered,
              ho.fits,
              sym hs ∙ total_bytes-bytes 0 live ho.ordered ho.fits,
            )
            v.mappings;
      replayed = rw (
        v.replayed,
        map_values-assign generation_of id state' t.live_mappings,
        assign_same id state.generation (map_values generation_of t.live_mappings)
            (map_values-find generation_of id state t.live_mappings hf),
      );
    }

pub set_live-IsValid :
    (t : GenerationTracker) (id : ℕ) (state : MappingState) (event : Event) (live : IntervalSet ℕ)
    → IsValid t
    → find id t.live_mappings ≡ some state
    → LiveOk live
    → IsValid (set_live t event id state live)
unfolding set_live
set_live-IsValid t id state event live v hf ho =
    elim (Bool-cases (Intervals.total_bytes live != state.generation.size)) [
      | inl e ↦ rw e (IsValid-resized t id state event live v hf ho)
      | inr e ↦ rw e (IsValid-replaced t id state live v hf ho (ground arith))
    ]

pub add_mapping-IsValid :
    (t : GenerationTracker) (state : MappingState)
    → IsValid t
    → state.generation.kind ≢ heap_allocation
    → LiveOk state.live
    → state.generation.size ≡ bytes state.live
    → Holds IsValid (add_mapping t state)
unfolding add_mapping
add_mapping-IsValid t state v hk ho hs =
    Holds-then IsValid (require_new_mapping_id t state.generation.mapping_id) _ (
      Holds-throw_if IsValid (is_present (find state.generation.mapping_id t.live_mappings)) _ _
        λ hp.
          Holds-checked_increment IsValid t.created_count _ _
            λ hc. IsValid-mapping_created t state v hk ho hs (is_present-false _ hp) hc)

pub close_mapping-IsValid :
    (t : GenerationTracker) (id : ℕ) (state : MappingState) (reason : GenerationEndReason)
    (event : Event)
    → IsValid t
    → find id t.live_mappings ≡ some state
    → Holds IsValid (close_mapping t id state.generation reason event)
unfolding close_mapping
close_mapping-IsValid t id state reason event v hf =
    Holds-checked_increment IsValid t.ended_count _ _
      λ _. IsValid-mapping_ended t id state reason event v hf

pub orphaned_mapping_end-IsValid :
    (t : GenerationTracker) → IsValid t → Holds IsValid (orphaned_mapping_end t)
unfolding orphaned_mapping_end
orphaned_mapping_end-IsValid t v =
    Holds-checked_increment IsValid t.orphaned_mapping_end_count _ _ λ _. record {
      counted = v.counted;
      fits = v.fits;
      allocations_sorted = v.allocations_sorted;
      mappings_sorted = v.mappings_sorted;
      allocations = v.allocations;
      mappings = v.mappings;
      replayed = v.replayed;
    }
