-- ===== src/Analyzer/GenerationTracker/MappingEvents.antt =====
-- Every event keeps the tracker valid.
use noleax.Prelude.{
  sub_u64, ℕ, ◌+◌, ◌-◌, ◌≤◌, List, [], ◌∷◌, not, ◌||◌, ◌≡◌, ◌≢◌, some, ltb, ◌==◌, ◌!=◌, u64_max,
  arith, inl, inr, Option-cases, Bool-cases, suc,
}
use noleax.Prelude.Error.{ok, Holds, Holds-ok, Holds-throw_if, Holds-bind, Holds-if, Holds-then}
use noleax.Prelude.Map.{find, Entries-find}
use noleax.Trace.IntervalSet as Intervals
use noleax.Trace.IntervalSet.{IntervalSet}
use noleax.Trace.IntervalSet.Laws.{
  IsOrdered-insert, IsOrdered-subtract, All-IsU64-insert, All-IsU64-subtract, bytes-insert_empty,
}
use noleax.Trace.Identifiers.{is_valid}
use noleax.Trace.Event.{Event, EventPayload, VmAllocateEvent, VmFreeEvent, MapEvent, UnmapEvent}
use noleax.Trace.Event.Validate.{call_succeeded, validate_event}
use noleax.Analyzer.GenerationTracker.{
  GenerationKind, heap_allocation, virtual_allocation, mapped_view, MappingState, GenerationTracker,
  new_tracker,
}
use noleax.Analyzer.GenerationTracker.Mappings.{
  kind_eq, run_end, resize_run, resize_live, add_mapping, update_mapping, update_base, update_size,
  new_mapping, observe_vm_allocate, end_mapping, release_region, release_range, observe_vm_free,
  observe_map, observe_unmap, mem_release,
}
use noleax.Analyzer.GenerationTracker.Observe.{dispatch, observe, observe_all}
use noleax.Analyzer.GenerationTracker.Valid.{IsValid, MappingOk, new_tracker-IsValid}
use noleax.Analyzer.GenerationTracker.HeapEvents.{
  observe_allocation-IsValid, observe_reallocation-IsValid, observe_free-IsValid,
  observe_heap_destroy-IsValid,
}
use noleax.Analyzer.GenerationTracker.MappingInvariant.{
  LiveOk, IsValid-resized, set_live-IsValid, add_mapping-IsValid, close_mapping-IsValid,
  orphaned_mapping_end-IsValid,
}
use Prim.Native.Nat.{bit_and}

-- The live set that the tracker holds under an identifier.
live-LiveOk :
    (t : GenerationTracker) (id : ℕ) (state : MappingState)
    → IsValid t
    → find id t.live_mappings ≡ some state
    → LiveOk state.live
live-LiveOk t id state v hf =
    let m = Entries-find (MappingOk t.seen_mapping_ids) id state t.live_mappings v.mappings hf in
    record { ordered = m.3; fits = m.4 }

resize_run-LiveOk :
    (live : IntervalSet ℕ) (base size end : ℕ)
    → LiveOk live
    → size ≤ u64_max - base
    → LiveOk (resize_run live base size end)
unfolding resize_run
resize_run-LiveOk live base size end h hs = elim (Bool-cases (ltb (sub_u64 end base) size)) [
  | inl e ↦ rw e (record {
    ordered = IsOrdered-insert end (base + size) 0 0 live (omega arith) h.ordered;
    fits = All-IsU64-insert end (base + size) 0 0 live h.ordered (λ _. ground arith) h.fits;
  })
  | inr e ↦ elim (Bool-cases (ltb size (sub_u64 end base))) [
    | inl f ↦
        rw (e, f)
          (record {
            ordered = (IsOrdered-subtract (base + size) end 0 live h.ordered).1;
            fits = (All-IsU64-subtract (base + size) end 0 live h.ordered h.fits).1;
          })
    | inr f ↦ rw (e, f) h
  ]
]

resize_live-LiveOk :
    (live : IntervalSet ℕ) (base size : ℕ)
    → LiveOk live
    → size ≤ u64_max - base
    → Holds LiveOk (resize_live live base size)
unfolding resize_live
resize_live-LiveOk live base size h hs = elim (Option-cases (Intervals.find base live)) [
  | inl e ↦ rw (e, resize_live) tt
  | inr (fragment, e) ↦
      rw (e, resize_live)
        (Holds-if LiveOk (fragment.begin == base) _ _
          (λ _. elim (Option-cases (run_end (suc (Intervals.size live)) live fragment.end)) [
            | inl r ↦ rw r tt
            | inr (end, r) ↦ rw r (resize_run-LiveOk live base size end h hs)
          ])
          (λ _. Holds-if LiveOk (ltb (sub_u64 fragment.end base) size) _ _ (λ _. tt) (λ _. h)))
]

new_mapping-IsValid :
    (t : GenerationTracker) (kind : GenerationKind) (id base size : ℕ) (event : Event)
    → IsValid t
    → kind ≢ heap_allocation
    → size ≤ u64_max - base
    → Holds IsValid (add_mapping t (new_mapping kind id base size event))
new_mapping-IsValid t kind id base size event v hk hs =
    add_mapping-IsValid t (new_mapping kind id base size event) v hk
      (record {
        ordered = IsOrdered-insert base (base + size) 0 0 [] (omega arith) tt;
        fits = All-IsU64-insert base (base + size) 0 0 [] tt (λ h. omega arith) tt;
      })
      (omega (arith, bytes-insert_empty {T = ℕ} base (base + size) 0))

observe_vm_allocate-IsValid :
    (t : GenerationTracker) (event : Event) (e : VmAllocateEvent)
    → IsValid t
    → Holds IsValid (observe_vm_allocate t event e)
unfolding observe_vm_allocate update_mapping
observe_vm_allocate-IsValid t event e v =
    Holds-if IsValid (not (call_succeeded event.header.status) || not (is_valid e.mapping_id)) _ _
      (λ _. v)
      (λ _.
        Holds-if IsValid (ltb (u64_max - update_base e) (update_size e)) _ _ (λ _. tt)
          (λ h. elim (Option-cases (find e.mapping_id t.live_mappings)) [
            | inl n ↦ rw n (
                new_mapping-IsValid t virtual_allocation e.mapping_id (update_base e)
                  (update_size e) event v (λ p. cc) (ground arith))
            | inr (state, n) ↦ rw n (
                Holds-if IsValid
                  (not (kind_eq state.generation.kind virtual_allocation)
                    || ltb (update_base e) state.generation.address)
                  _ _ (λ _. tt)
                  (λ _.
                    Holds-bind IsValid LiveOk
                      (resize_live state.live (update_base e) (update_size e)) _
                      (resize_live-LiveOk state.live (update_base e) (update_size e)
                        (live-LiveOk t e.mapping_id state v n) (ground arith))
                      (λ live ho. set_live-IsValid t e.mapping_id state event live v n ho)))
          ]))

release_range-IsValid :
    (t : GenerationTracker) (event : Event) (e : VmFreeEvent) (state : MappingState)
    → IsValid t
    → find e.mapping_id t.live_mappings ≡ some state
    → Holds IsValid (release_range t event e state)
unfolding release_range
release_range-IsValid t event e state v n =
    let ho = live-LiveOk t e.mapping_id state v n in
    let result = Intervals.subtract e.base (e.base + e.region_size) state.live in
    Holds-throw_if IsValid (ltb (u64_max - e.base) e.region_size) _ _ λ _.
      Holds-throw_if IsValid (Intervals.empty result.0) _ _ λ _.
        Holds-if IsValid (not (Intervals.empty result.1)) _ _
          (λ _. IsValid-resized t e.mapping_id state event result.1 v n (record {
            ordered =
                (IsOrdered-subtract e.base (e.base + e.region_size) 0 state.live ho.ordered).1;
            fits =
                (All-IsU64-subtract e.base (e.base + e.region_size) 0 state.live ho.ordered
                  ho.fits).1;
          }))
          (λ _. close_mapping-IsValid t e.mapping_id state _ event v n)

release_region-IsValid :
    (t : GenerationTracker) (event : Event) (e : VmFreeEvent) (state : MappingState)
    → IsValid t
    → find e.mapping_id t.live_mappings ≡ some state
    → Holds IsValid (release_region t event e state)
unfolding release_region
release_region-IsValid t event e state v n =
    Holds-throw_if IsValid
      (not (kind_eq state.generation.kind virtual_allocation) || e.base != state.generation.address)
      _ _ λ _. close_mapping-IsValid t e.mapping_id state _ event v n

observe_vm_free-IsValid :
    (t : GenerationTracker) (event : Event) (e : VmFreeEvent)
    → IsValid t
    → Holds IsValid (observe_vm_free t event e)
unfolding observe_vm_free
observe_vm_free-IsValid t event e v =
    Holds-if IsValid (not (call_succeeded event.header.status) || not (is_valid e.mapping_id)) _ _
      (λ _. v)
      (λ _.
        Holds-if IsValid (bit_and e.free_type mem_release == 0) _ _ (λ _. v)
          (λ _. elim (Option-cases (find e.mapping_id t.live_mappings)) [
            | inl n ↦ rw n (orphaned_mapping_end-IsValid t v)
            | inr (state, n) ↦ rw n (
                Holds-if IsValid (e.region_size == 0) _ _
                  (λ _. release_region-IsValid t event e state v n)
                  (λ _. release_range-IsValid t event e state v n))
          ]))

observe_map-IsValid :
    (t : GenerationTracker) (event : Event) (e : MapEvent)
    → IsValid t
    → Holds IsValid (observe_map t event e)
unfolding observe_map
observe_map-IsValid t event e v =
    Holds-if IsValid (not (call_succeeded event.header.status) || not (is_valid e.mapping_id)) _ _
      (λ _. v)
      (λ _.
        Holds-if IsValid (ltb (u64_max - e.result_base) e.view_size) _ _ (λ _. tt)
          (λ h.
            new_mapping-IsValid t mapped_view e.mapping_id e.result_base e.view_size event v
              (λ p. cc) (ground arith)))

observe_unmap-IsValid :
    (t : GenerationTracker) (event : Event) (e : UnmapEvent)
    → IsValid t
    → Holds IsValid (observe_unmap t event e)
unfolding observe_unmap end_mapping
observe_unmap-IsValid t event e v =
    Holds-if IsValid (not (call_succeeded event.header.status) || not (is_valid e.mapping_id)) _ _
      (λ _. v)
      (λ _. elim (Option-cases (find e.mapping_id t.live_mappings)) [
        | inl n ↦ rw (n, end_mapping) (orphaned_mapping_end-IsValid t v)
        | inr (state, n) ↦
            rw (n, end_mapping)
              (Holds-throw_if IsValid (not (kind_eq state.generation.kind mapped_view)) _ _ λ _.
                Holds-throw_if IsValid (state.generation.address != e.base) _ _
                  λ _. close_mapping-IsValid t e.mapping_id state _ event v n)
      ])

dispatch-IsValid :
    (t : GenerationTracker) (event : Event) (payload : EventPayload)
    → IsValid t
    → Holds IsValid (dispatch t event payload)
unfolding dispatch
dispatch-IsValid t event (EventPayload.heap_create e) v = v
dispatch-IsValid t event (EventPayload.heap_destroy e) v = observe_heap_destroy-IsValid t event e v
dispatch-IsValid t event (EventPayload.allocation e) v = observe_allocation-IsValid t event e v
dispatch-IsValid t event (EventPayload.reallocation e) v = observe_reallocation-IsValid t event e v
dispatch-IsValid t event (EventPayload.free e) v = observe_free-IsValid t event e v
dispatch-IsValid t event (EventPayload.vm_allocate e) v = observe_vm_allocate-IsValid t event e v
dispatch-IsValid t event (EventPayload.vm_free e) v = observe_vm_free-IsValid t event e v
dispatch-IsValid t event (EventPayload.map e) v = observe_map-IsValid t event e v
dispatch-IsValid t event (EventPayload.unmap e) v = observe_unmap-IsValid t event e v

observe_all-Holds :
    (t : GenerationTracker) (events : List Event) → IsValid t → Holds IsValid (observe_all t events)
unfolding observe_all observe
observe_all-Holds t [] v = v
observe_all-Holds t (event ∷ events) v =
    Holds-bind IsValid IsValid (observe t event) _
      (Holds-then IsValid (validate_event event) _ (dispatch-IsValid t event event.payload v))
      (λ t' v'. observe_all-Holds t' events v')

-- An event that a valid tracker takes without an exception leaves it valid.
pub observe-IsValid :
    (t t' : GenerationTracker) (event : Event) → IsValid t → observe t event ≡ ok t' → IsValid t'
unfolding observe
observe-IsValid t t' event v e =
    Holds-ok IsValid (observe t event) e
      (Holds-then IsValid (validate_event event) _ (dispatch-IsValid t event event.payload v))

-- After any events that a new tracker took without an exception it is valid: the counts balance, the
-- live maps are sorted, each entry stands under its own identifier, which has been seen, the live
-- fragments of a mapping are ordered and add up to its size, and the callbacks replay to the state.
pub observe_all-IsValid :
    (events : List Event) (t : GenerationTracker)
    → observe_all new_tracker events ≡ ok t
    → IsValid t
observe_all-IsValid events t e =
    Holds-ok IsValid (observe_all new_tracker events) e
      (observe_all-Holds new_tracker events new_tracker-IsValid)
