-- ===== src/Analyzer/GenerationTracker/Mappings.antt =====
-- src/analyzer/generation_tracker.cpp: what the tracker does with virtual memory and mapped views.
use noleax.Prelude.{
  ℕ, zero, suc, ◌+◌, ◌-◌, [], ◌∷◌, Bool, true, false, not, ◌||◌, Option, none, some, if◌then◌else◌,
  ◌==◌, ◌!=◌, ltb, u64_max, sub_u64,
}
use noleax.Prelude.Error.{
  Result, ok, err, generation_state_error, out_of_fuel, ◌>>=◌, ◌>>◌, throw_if,
}
use noleax.Prelude.Map.{contains, find, emplace, erase, assign}
use noleax.Trace.Identifiers.{is_valid}
use noleax.Trace.Event.{Event, VmAllocateEvent, VmFreeEvent, MapEvent, UnmapEvent}
use noleax.Trace.Event.Validate.{call_succeeded}
use noleax.Trace.IntervalSet as Intervals
use noleax.Trace.IntervalSet.{IntervalSet, Fragment}
use noleax.Analyzer.GenerationTracker.{
  GenerationKind, heap_allocation, virtual_allocation, mapped_view, GenerationEndReason,
  MemoryGeneration, MappingState, created, ended, changed, GenerationTracker,
}
use noleax.Analyzer.GenerationTracker.Allocations.{Tracked, checked_increment, is_present}
use Prim.Native.Nat.{bit_and}

-- `==` on two kinds
abbrev pub kind_eq : GenerationKind → GenerationKind → Bool
kind_eq heap_allocation heap_allocation = true
kind_eq virtual_allocation virtual_allocation = true
kind_eq mapped_view mapped_view = true
kind_eq _ _ = false

unfoldable pub require_new_mapping_id : GenerationTracker → ℕ → Result (Unit {0})
require_new_mapping_id t id = do
  throw_if (not (is_valid id))
      (generation_state_error "new mapping generation requires a mapping_id")
  throw_if (contains t.seen_mapping_ids id)
      (generation_state_error "mapping_id is reused by more than one generation")

unfoldable pub add_mapping : GenerationTracker → MappingState → Tracked
unfolding require_new_mapping_id checked_increment
add_mapping t state = do
  let id = state.generation.mapping_id
  require_new_mapping_id t id
  throw_if (is_present (find id t.live_mappings))
      (generation_state_error "mapping_id is already live")
  count ← checked_increment t.created_count "created generation count overflow"
  ok (record t {
    seen_mapping_ids = id ∷ t.seen_mapping_ids;
    live_mappings = emplace id state t.live_mappings;
    created_count = count;
    notices = created state.generation ∷ t.notices;
  })

-- `notify_ended`, the count, and the erasure of a mapping.
unfoldable pub close_mapping :
    GenerationTracker → ℕ → MemoryGeneration → GenerationEndReason → Event → Tracked
unfolding checked_increment
close_mapping t id generation reason event = do
  count ← checked_increment t.ended_count "ended generation count overflow"
  ok (record t {
    live_mappings = erase id t.live_mappings;
    ended_count = count;
    notices = ended generation reason event ∷ t.notices;
  })

unfoldable pub orphaned_mapping_end : GenerationTracker → Tracked
unfolding checked_increment
orphaned_mapping_end t = do
  count ← checked_increment t.orphaned_mapping_end_count "orphaned mapping end count overflow"
  ok (record t { orphaned_mapping_end_count = count })

unfoldable pub end_mapping :
    GenerationTracker → ℕ → ℕ → GenerationKind → GenerationEndReason → Event → Tracked
unfolding close_mapping orphaned_mapping_end
end_mapping t id expected_address expected_kind reason event = elim (find id t.live_mappings) [
  | none ↦ orphaned_mapping_end t
  | some state ↦ do
    throw_if (not (kind_eq state.generation.kind expected_kind))
        (generation_state_error "mapping end operation does not match its mapping_id kind")
    throw_if (state.generation.address != expected_address)
        (generation_state_error "mapping end address does not match its mapping_id")
    close_mapping t id state.generation reason event
]

-- The `for (;;)` that extends a run over the fragments that follow one another; `none` is no
-- answer of the source, but the end of the fuel.
unfoldable pub run_end : ℕ → IntervalSet ℕ → ℕ → Option ℕ
run_end zero live end = none
run_end (suc fuel) live end = elim (Intervals.find end live) [
  | none ↦ some end
  | some next ↦
      let rest = run_end fuel live next.end in if next.begin != end then some end else rest
]

abbrev pub mismatch : {A : Type 0} → Result A
mismatch =
    err (generation_state_error "virtual memory update does not match its mapping generation")

-- The run that ends at `end` is grown or cut to `size` bytes from `base` on.
unfoldable pub resize_run : IntervalSet ℕ → ℕ → ℕ → ℕ → IntervalSet ℕ
resize_run live base size end =
    if ltb (sub_u64 end base) size
    then (Intervals.insert end (base + size) 0 live).1
    else if ltb size (sub_u64 end base)
    then (Intervals.subtract (base + size) end live).1
    else live

-- The live set after an update of the extent from `base` on to `size` bytes.
unfoldable pub resize_live : IntervalSet ℕ → ℕ → ℕ → Result (IntervalSet ℕ)
resize_live live base size = elim (Intervals.find base live) [
  | none ↦ mismatch
  | some fragment ↦
      if fragment.begin == base
      then elim (run_end (suc (Intervals.size live)) live fragment.end) [
        | none ↦ err out_of_fuel
        | some end ↦ ok (resize_run live base size end)
      ]
      else if ltb (sub_u64 fragment.end base) size
      then err (generation_state_error "virtual memory update exceeds its mapping generation")
      else ok live
]

-- The live set of a mapping is replaced, and its size follows the live bytes.
unfoldable pub set_live :
    GenerationTracker → Event → ℕ → MappingState → IntervalSet ℕ → GenerationTracker
set_live t event id state live =
    let live_bytes = Intervals.total_bytes live in
    let generation = record (state.generation) { size = live_bytes } in
    if live_bytes != state.generation.size
    then record t {
      live_mappings = assign id (record { generation = generation; live = live }) t.live_mappings;
      notices = changed generation event ∷ t.notices;
    }
    else record t { live_mappings = assign id (record state { live = live }) t.live_mappings }

-- The branch of `observe_vm_allocate` for an identifier that is live.
unfoldable pub update_mapping : GenerationTracker → Event → ℕ → ℕ → ℕ → MappingState → Tracked
update_mapping t event id base size state =
    if not (kind_eq state.generation.kind virtual_allocation) || ltb base state.generation.address
    then mismatch
    else resize_live state.live base size >>= (λ live. ok (set_live t event id state live))

-- `update_base` and `update_size`
abbrev pub update_base : VmAllocateEvent → ℕ
update_base allocation =
    if allocation.mapping_base == 0 then allocation.result_base else allocation.mapping_base

abbrev pub update_size : VmAllocateEvent → ℕ
update_size allocation =
    if allocation.mapping_size == 0 then allocation.result_size else allocation.mapping_size

-- A new mapping generation, live over its whole range.
abbrev pub new_mapping : GenerationKind → ℕ → ℕ → ℕ → Event → MappingState
new_mapping kind id base size event = record {
  generation = record {
    kind = kind;
    allocation_id = 0;
    mapping_id = id;
    heap_id = 0;
    heap_handle = 0;
    address = base;
    size = size;
    created_by = event;
  };
  live = (Intervals.insert base (base + size) 0 []).1;
}

unfoldable pub observe_vm_allocate : GenerationTracker → Event → VmAllocateEvent → Tracked
observe_vm_allocate t event allocation =
    let id = allocation.mapping_id in
    let base = update_base allocation in
    let size = update_size allocation in
    if not (call_succeeded event.header.status) || not (is_valid id)
    then ok t
    else if ltb (u64_max - base) size
    then err (generation_state_error "virtual memory generation range overflows")
    else elim (find id t.live_mappings) [
      | some state ↦ update_mapping t event id base size state
      | none ↦ add_mapping t (new_mapping virtual_allocation id base size event)
    ]

abbrev pub mem_release : ℕ
mem_release = 0x8000

-- The whole-region release of `observe_vm_free`.
unfoldable pub release_region : GenerationTracker → Event → VmFreeEvent → MappingState → Tracked
release_region t event free_event state = do
  throw_if
      (not (kind_eq state.generation.kind virtual_allocation)
        || free_event.base != state.generation.address)
      (generation_state_error "mapping end address does not match its mapping_id")
  close_mapping t free_event.mapping_id state.generation GenerationEndReason.virtual_freed event

-- The ranged release of `observe_vm_free`.
unfoldable pub release_range : GenerationTracker → Event → VmFreeEvent → MappingState → Tracked
release_range t event free_event state = do
  throw_if (ltb (u64_max - free_event.base) free_event.region_size)
      (generation_state_error "virtual memory free range overflows")
  let result =
      Intervals.subtract free_event.base (free_event.base + free_event.region_size) state.live
  throw_if (Intervals.empty result.0)
      (generation_state_error "mapping free matches no live fragment of its mapping_id")
  if not (Intervals.empty result.1)
      then (let size = Intervals.total_bytes result.1 in
          let generation = record (state.generation) { size = size } in
          ok (record t {
            live_mappings =
                assign free_event.mapping_id (record { generation = generation; live = result.1 })
                  t.live_mappings;
            notices = changed generation event ∷ t.notices;
          }))
      else close_mapping t free_event.mapping_id state.generation
          (if kind_eq state.generation.kind mapped_view
            then GenerationEndReason.unmapped
            else GenerationEndReason.virtual_freed)
          event

unfoldable pub observe_vm_free : GenerationTracker → Event → VmFreeEvent → Tracked
observe_vm_free t event free_event =
    if not (call_succeeded event.header.status) || not (is_valid free_event.mapping_id)
    then ok t
    else if bit_and free_event.free_type mem_release == 0
    then ok t
    else elim (find free_event.mapping_id t.live_mappings) [
      | none ↦ orphaned_mapping_end t
      | some state ↦
          if free_event.region_size == 0
          then release_region t event free_event state
          else release_range t event free_event state
    ]

unfoldable pub observe_map : GenerationTracker → Event → MapEvent → Tracked
observe_map t event mapping =
    if not (call_succeeded event.header.status) || not (is_valid mapping.mapping_id)
    then ok t
    else if ltb (u64_max - mapping.result_base) mapping.view_size
    then err (generation_state_error "mapped view generation range overflows")
    else add_mapping t
        (new_mapping mapped_view mapping.mapping_id mapping.result_base mapping.view_size event)

unfoldable pub observe_unmap : GenerationTracker → Event → UnmapEvent → Tracked
observe_unmap t event unmap =
    if not (call_succeeded event.header.status) || not (is_valid unmap.mapping_id)
    then ok t
    else end_mapping t unmap.mapping_id unmap.base mapped_view GenerationEndReason.unmapped event
