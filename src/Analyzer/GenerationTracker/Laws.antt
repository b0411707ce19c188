-- ===== src/Analyzer/GenerationTracker/Laws.antt =====
-- What the tracker promises after any events, and what a ranged release does.
use noleax.Prelude.{
  ℕ, ◌+◌, List, ◌&&◌, ◌≡◌, sym, ◌∙◌, Option, none, some, ◌==◌, arith, if◌then◌else◌,
}
use noleax.Prelude.Error.{ok, err, generation_state_error}
use noleax.Prelude.Map.{find, Entries-find, find-assign, find-erase}
use noleax.Trace.IntervalSet as Intervals
use noleax.Trace.IntervalSet.{IntervalSet}
use noleax.Trace.IntervalSet.Reference.{IsOrdered, value_at}
use noleax.Trace.IntervalSet.Laws.{
  in_range, value_at-subtract, subtract-subtract, total_bytes-bytes, empty-value_at, empty_of_nil,
}
use noleax.Trace.Event.{Event, VmFreeEvent}
use noleax.Analyzer.GenerationTracker.{MappingState, GenerationTracker, new_tracker, live_count}
use noleax.Analyzer.GenerationTracker.Mappings.{release_range, close_mapping}
use noleax.Analyzer.GenerationTracker.Allocations.{checked_increment}
use noleax.Analyzer.GenerationTracker.Observe.{observe_all}
use noleax.Analyzer.GenerationTracker.Valid.{IsValid, MappingOk}
use noleax.Analyzer.GenerationTracker.MappingEvents.{observe_all-IsValid}

-- After any events that a new tracker took, the generations that were created are those that have
-- ended and those that are live.
pub observe_all-count :
    (events : List Event) (t : GenerationTracker)
    → observe_all new_tracker events ≡ ok t
    → t.created_count ≡ t.ended_count + live_count t
unfolding live_count
observe_all-count events t e =
    let v = observe_all-IsValid events t e in omega (arith, v.counted, v.fits)

-- After any events that a new tracker took, a live mapping stands under its own identifier, its live
-- fragments are ordered, and its size is what `total_bytes` gives for them.
pub observe_all-mapping_size :
    (events : List Event) (t : GenerationTracker) (id : ℕ) (state : MappingState)
    → observe_all new_tracker events ≡ ok t
    → find id t.live_mappings ≡ some state
    → (state.generation.mapping_id ≡ id)
      × IsOrdered 0 state.live
      × (state.generation.size ≡ Intervals.total_bytes state.live)
observe_all-mapping_size events t id state e h =
    let v = observe_all-IsValid events t e in
    let m = Entries-find (MappingOk t.seen_mapping_ids) id state t.live_mappings v.mappings h in
    (m.1, m.3, m.5 ∙ sym (total_bytes-bytes 0 state.live m.3 m.4))

-- Whether the mapping under the identifier is live at the address.
abbrev pub live_at : GenerationTracker → ℕ → ℕ → Option ℕ
live_at t id point = elim (find id t.live_mappings) [ none ↦ none | some s ↦ value_at point s.live ]

-- What the release of a range leaves under an identifier.
abbrev released : VmFreeEvent → MappingState → Option MappingState
released e state =
    let live = (Intervals.subtract e.base (e.base + e.region_size) state.live).1 in
    if Intervals.empty live
    then none
    else some (record {
      generation = record (state.generation) { size = Intervals.total_bytes live };
      live = live;
    })

release_range-find :
    (t t' : GenerationTracker) (event : Event) (e : VmFreeEvent) (state : MappingState) (id : ℕ)
    → IsValid t
    → find e.mapping_id t.live_mappings ≡ some state
    → release_range t event e state ≡ ok t'
    → find id t'.live_mappings
      ≡ (if e.mapping_id == id then released e state else find id t.live_mappings)
unfolding release_range close_mapping checked_increment
release_range-find t t' event e state id v hf h =
    let live = (Intervals.subtract e.base (e.base + e.region_size) state.live).1 in
    ground (
      arith,
      find-assign e.mapping_id id
          (record {
            generation = record (state.generation) { size = Intervals.total_bytes live };
            live = live;
          })
          state t.live_mappings hf,
      find-erase e.mapping_id id 0 t.live_mappings v.mappings_sorted,
    )

value_at-released :
    (e : VmFreeEvent) (state : MappingState) (point : ℕ)
    → IsOrdered 0 state.live
    → (elim (released e state) [ none ↦ none | some s ↦ value_at point s.live ])
      ≡ (if in_range e.base (e.base + e.region_size) point then none else value_at point state.live)
value_at-released e state point o = ground (
  arith,
  value_at-subtract e.base (e.base + e.region_size) 0 point state.live o,
  empty-value_at point (Intervals.subtract e.base (e.base + e.region_size) state.live).1,
)

-- A ranged release that a valid tracker took makes exactly the addresses of the range, of the
-- identified mapping, no longer live: every other address of every mapping is as it was.
pub live_at-release_range :
    (t t' : GenerationTracker) (event : Event) (e : VmFreeEvent) (state : MappingState)
    (id point : ℕ)
    → IsValid t
    → find e.mapping_id t.live_mappings ≡ some state
    → release_range t event e state ≡ ok t'
    → live_at t' id point ≡ (
        if e.mapping_id == id && in_range e.base (e.base + e.region_size) point
        then none
        else live_at t id point)
live_at-release_range t t' event e state id point v hf h =
    let m =
      Entries-find (MappingOk t.seen_mapping_ids) e.mapping_id state t.live_mappings v.mappings
        hf in
    ground
      (arith, release_range-find t t' event e state id v hf h, value_at-released e state point m.3)

released-live :
    (t t' : GenerationTracker) (event : Event) (e : VmFreeEvent) (state state' : MappingState)
    → IsValid t
    → find e.mapping_id t.live_mappings ≡ some state
    → release_range t event e state ≡ ok t'
    → find e.mapping_id t'.live_mappings ≡ some state'
    → state'.live ≡ (Intervals.subtract e.base (e.base + e.region_size) state.live).1
released-live t t' event e state state' v hf h hf' =
    ground (arith, release_range-find t t' event e state e.mapping_id v hf h)

-- A range that was released from a mapping, of which something is left, cannot be released again:
-- the second release throws.
pub release_range_twice :
    (t t' : GenerationTracker) (event event' : Event) (e : VmFreeEvent)
    (state state' : MappingState)
    → IsValid t
    → find e.mapping_id t.live_mappings ≡ some state
    → release_range t event e state ≡ ok t'
    → find e.mapping_id t'.live_mappings ≡ some state'
    → release_range t' event' e state'
      ≡ err (generation_state_error "mapping free matches no live fragment of its mapping_id")
unfolding release_range
release_range_twice t t' event event' e state state' v hf h hf' =
    let m =
      Entries-find (MappingOk t.seen_mapping_ids) e.mapping_id state t.live_mappings v.mappings
        hf in
    let end = e.base + e.region_size in
    ground (
      arith,
      released-live t t' event e state state' v hf h hf',
      subtract-subtract e.base end 0 state.live m.3,
      empty_of_nil (Intervals.subtract e.base end state'.live).0,
    )
