-- ===== src/Analyzer/GenerationTracker/Observe.antt =====
-- src/analyzer/generation_tracker.cpp: `GenerationTracker::observe`, and a whole run of it.
use noleax.Prelude.{List, [], ◌∷◌}
use noleax.Prelude.Error.{ok, ◌>>=◌, ◌>>◌}
use noleax.Trace.Event.{Event, EventPayload}
use noleax.Trace.Event.Validate.{validate_event}
use noleax.Analyzer.GenerationTracker.{GenerationTracker}
use noleax.Analyzer.GenerationTracker.Allocations.{
  Tracked, observe_allocation, observe_reallocation, observe_free, observe_heap_destroy,
}
use noleax.Analyzer.GenerationTracker.Mappings.{
  observe_vm_allocate, observe_vm_free, observe_map, observe_unmap,
}

-- The `switch` on the operation of the payload.
unfoldable pub dispatch : GenerationTracker → Event → EventPayload → Tracked
dispatch t event (EventPayload.heap_create e) = ok t
dispatch t event (EventPayload.heap_destroy e) = observe_heap_destroy t event e
dispatch t event (EventPayload.allocation e) = observe_allocation t event e
dispatch t event (EventPayload.reallocation e) = observe_reallocation t event e
dispatch t event (EventPayload.free e) = observe_free t event e
dispatch t event (EventPayload.vm_allocate e) = observe_vm_allocate t event e
dispatch t event (EventPayload.vm_free e) = observe_vm_free t event e
dispatch t event (EventPayload.map e) = observe_map t event e
dispatch t event (EventPayload.unmap e) = observe_unmap t event e

unfoldable pub observe : GenerationTracker → Event → Tracked
observe t event = do validate_event event; dispatch t event event.payload

-- The events of a stream, in order.
unfoldable pub observe_all : GenerationTracker → List Event → Tracked
observe_all t [] = ok t
observe_all t (event ∷ events) = do t' ← observe t event; observe_all t' events
