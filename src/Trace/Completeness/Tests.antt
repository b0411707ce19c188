-- ===== src/Trace/Completeness/Tests.antt =====
-- Runs of a report, of a tracker from the start of a process to a crash, and of the statistics.
use noleax.Prelude.{
  ℕ, ◌<◌, List, [], ◌∷◌, true, false, not, ◌&&◌, ◌++◌, none, some, ◌≡◌, ◌≢◌, ◌↔◌, refl, ◌!=◌, leb,
  arith,
}
use noleax.Prelude.Error.{Result, ok, err, ◌>>=◌}
use noleax.Trace.Completeness.{
  CompletenessIssue, CompletenessReport, from_mask, issue_value, known_issue_mask, issue_bit, add,
  remove, merge, has, complete, full, overall_state, lifecycle_state, stack_detail_state,
  understanding_state, recommended_exit_code,
}
use noleax.Prelude.Bits.{bit_not, digit}
use noleax.Trace.Completeness.Issues.{bit_at}
use noleax.Trace.Completeness.Reports.{lifecycle_state_lem, stack_detail_state_lem}
use noleax.Trace.Completeness.Statistics.{
  LossReason, LossLocation, LossRecord, ApiStatistics, CaptureStatistics, is_known_loss_reason,
  is_known_loss_location, validate_loss_record, validate_statistics,
}
use noleax.Trace.Completeness.Tracker.{
  CaptureScope, EndOfTrace, CompletenessTracker, validate_capture_scope, validate_end_of_trace,
  add_if, new_tracker, observe_loss, observe_end_of_trace,
}
use noleax.Trace.Completeness.History.{Observation, step, run, raises_all, has_end, is_end}
use noleax.Trace.Completeness.Outcome.{scope_raises, run-new_tracker}
use noleax.Trace.Completeness.Order.{takes_all, is_ok-run}
use noleax.Prelude.Success.{is_ok}
use noleax.Trace.Completeness.Accepted.{IsU64Statistics, IsConsistent, validate_statistics_lem}
use Prim.Native.Nat.{max}

abbrev late : CompletenessReport
late = from_mask 3

lifecycle_state_lem_example :
    (lifecycle_state late ≡ complete) ↔ ((k : ℕ) → (k != 8) ≡ true → bit_at k late ≡ 0)
lifecycle_state_lem_example = lifecycle_state_lem late (omega arith)

stack_detail_state_lem_example :
    (stack_detail_state late ≡ complete) ↔ ((k : ℕ) → leb 2 k ≡ true → bit_at k late ≡ 0)
stack_detail_state_lem_example = stack_detail_state_lem late (omega arith)

abbrev scope : CaptureScope
scope = record { started_at_process_start = true; preexisting_allocations_unknown = false }

abbrev lost : LossRecord
lost = record {
  reason = LossReason.queue_full;
  location = LossLocation.agent_queue;
  estimated_event_count = some 3;
  sequence_range = none;
  tick_range = none;
}

abbrev crash : EndOfTrace
crash = record {
  final_sequence = 12;
  final_monotonic_ticks = 900;
  normal_stop = false;
  target_exit_code = none;
  aggregate_completeness = from_mask 0x100;
}

abbrev history : List Observation
history =
    Observation.loss lost ∷ Observation.unknown_record_skipped ∷ Observation.end_of_trace crash ∷ []

abbrev tracker_of : Result CompletenessTracker → CompletenessTracker
tracker_of (ok t) = t
tracker_of (err e) = record { report = from_mask 0; saw_end_of_trace = false }

abbrev begun : CompletenessTracker
begun = tracker_of (new_tracker scope)

abbrev ended : CompletenessTracker
ended = tracker_of (run begun history)

begun_ok : new_tracker scope ≡ ok begun
unfolding new_tracker validate_capture_scope add add_if issue_bit issue_value known_issue_mask
begun_ok = refl

ended_ok : run begun history ≡ ok ended
unfolding new_tracker validate_capture_scope add add_if issue_bit issue_value known_issue_mask run
    step observe_loss observe_end_of_trace validate_loss_record is_known_loss_reason
    is_known_loss_location validate_end_of_trace has remove merge
    noleax.Trace.Completeness.Tracker.mark_unknown_record_skipped bit_not
ended_ok = refl

run-new_tracker_example :
    (ended.saw_end_of_trace ≡ has_end history)
    × (has ended.report CompletenessIssue.missing_end_of_trace ≡ ok (not (has_end history)))
    × ((k : ℕ)
        → k < 32
        → k ≢ 6
        → bit_at k ended.report ≡ max (scope_raises scope k) (raises_all history k))
run-new_tracker_example = run-new_tracker scope history begun ended begun_ok ended_ok

is_ok-run_example : is_ok (new_tracker scope >>= λ t. run t history) ≡ (
    not (scope.started_at_process_start && scope.preexisting_allocations_unknown)
    && takes_all false history)
is_ok-run_example = is_ok-run scope history

-- The run is accepted, and rejected with a loss or a second end behind the end.
takes_history : takes_all false history ≡ true
unfolding takes_all is_known_loss_reason is_known_loss_location is_end digit
takes_history = refl

takes_no_loss_after_end :
    (is_ok (new_tracker scope >>= λ t. run t (history ++ (Observation.loss lost ∷ []))) ≡ false)
    × (is_ok (new_tracker scope >>= λ t. run t (history ++ (Observation.end_of_trace crash ∷ [])))
        ≡ false)
unfolding takes_all is_known_loss_reason is_known_loss_location is_end digit
takes_no_loss_after_end = (
  is_ok-run scope (history ++ (Observation.loss lost ∷ [])),
  is_ok-run scope (history ++ (Observation.end_of_trace crash ∷ [])),
)

abbrev api : ApiStatistics
api = record {
  api_id = 4;
  observed_calls = 10;
  successful_operations = 8;
  failed_operations = 2;
  filtered_before_queue = 1;
  dropped_events = 3;
}

abbrev statistics : CaptureStatistics
statistics = record {
  observed_calls = 10;
  successful_operations = 8;
  failed_operations = 2;
  filtered_before_queue = 1;
  dropped_events = 3;
  unique_stacks = 2;
  reused_stacks = 4;
  written_uncompressed_bytes = 0;
  written_stored_bytes = 0;
  per_api = api ∷ [];
}

statistics-IsU64 : IsU64Statistics statistics
unfolding noleax.Trace.Completeness.Consistency.IsU64Apis
statistics-IsU64 = record {
  observed = omega arith;
  succeeded = omega arith;
  failed = omega arith;
  filtered = omega arith;
  dropped = omega arith;
  unique = omega arith;
  reused = omega arith;
  apis = (
    record {
      observed = omega arith;
      succeeded = omega arith;
      failed = omega arith;
      filtered = omega arith;
      dropped = omega arith;
    },
    tt,
  );
}

validate_statistics_lem_example : (validate_statistics statistics ≡ ok tt) ↔ IsConsistent statistics
validate_statistics_lem_example = validate_statistics_lem statistics statistics-IsU64
