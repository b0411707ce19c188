-- ===== src/Trace/Completeness/Tracker.antt =====
-- src/trace/completeness.cpp: `CompletenessTracker`, from the scope of a capture to its end.
use noleax.Prelude.{ℕ, Bool, true, false, Option, not, ◌&&◌, if◌then◌else◌}
use noleax.Prelude.Error.{Result, ok, ◌>>=◌, ◌>>◌}
use noleax.Trace.Identifiers.{Identifier}
use noleax.Trace.Completeness.{
  CompletenessIssue, CompletenessReport, from_mask, add, remove, merge, has,
}
use noleax.Trace.Completeness.Statistics.{LossReason, LossRecord, reject_if, validate_loss_record}

pub record CaptureScope : Type 0 where
  pub started_at_process_start : Bool
  pub preexisting_allocations_unknown : Bool

pub record EndOfTrace : Type 0 where
  pub final_sequence : Identifier
  pub final_monotonic_ticks : ℕ
  pub normal_stop : Bool
  pub target_exit_code : Option ℕ
  pub aggregate_completeness : CompletenessReport

unfoldable pub validate_capture_scope : CaptureScope → Result (Unit {0})
validate_capture_scope scope =
    reject_if (scope.started_at_process_start && scope.preexisting_allocations_unknown)
      "process-start capture cannot have unknown preexisting allocations"

unfoldable pub validate_end_of_trace : EndOfTrace → Result (Unit {0})
validate_end_of_trace end = do
  missing ← has end.aggregate_completeness CompletenessIssue.missing_end_of_trace
  reject_if missing "EndOfTrace cannot report itself as missing"
  abnormal ← has end.aggregate_completeness CompletenessIssue.abnormal_stop
  reject_if (end.normal_stop && abnormal) "normal EndOfTrace cannot report an abnormal stop"

pub record CompletenessTracker : Type 0 where
  pub report : CompletenessReport
  pub saw_end_of_trace : Bool

abbrev Tracked : Type 0
Tracked = Result CompletenessTracker

-- `if (test) report_.add(issue);`
unfoldable pub add_if : Bool → CompletenessReport → CompletenessIssue → Result CompletenessReport
add_if test report issue = if test then add report issue else ok report

-- The state with another `report_`.
abbrev with_report : CompletenessTracker → Result CompletenessReport → Tracked
with_report t result =
    result >>= λ report. ok (record { report = report; saw_end_of_trace = t.saw_end_of_trace })

unfoldable pub new_tracker : CaptureScope → Tracked
new_tracker scope = do
  validate_capture_scope scope
  r ← add (from_mask 0) CompletenessIssue.missing_end_of_trace
  r ←
      add_if (not scope.started_at_process_start) r
        CompletenessIssue.capture_did_not_start_at_process_start
  r ←
      add_if scope.preexisting_allocations_unknown r
        CompletenessIssue.preexisting_allocations_unknown
  ok (record { report = r; saw_end_of_trace = false })

-- `reason == LossReason::k...`
abbrev pub is_stack_capture_failed : LossReason → Bool
is_stack_capture_failed LossReason.stack_capture_failed = true
is_stack_capture_failed _ = false

abbrev pub is_writer_error : LossReason → Bool
is_writer_error LossReason.writer_error = true
is_writer_error _ = false

unfoldable pub observe_loss : CompletenessTracker → LossRecord → Tracked
observe_loss t loss = do
  reject_if t.saw_end_of_trace "Loss record appears after EndOfTrace"
  validate_loss_record loss
  if is_stack_capture_failed loss.reason
      then with_report t (add t.report CompletenessIssue.stack_data_loss)
      else with_report t do
        r ← add t.report CompletenessIssue.event_loss
        add_if (is_writer_error loss.reason) r CompletenessIssue.writer_error

unfoldable pub observe_end_of_trace : CompletenessTracker → EndOfTrace → Tracked
observe_end_of_trace t end = do
  reject_if t.saw_end_of_trace "trace contains more than one EndOfTrace record"
  validate_end_of_trace end
  r ← remove t.report CompletenessIssue.missing_end_of_trace
  r ←
      add_if (not end.normal_stop) (merge r end.aggregate_completeness)
        CompletenessIssue.abnormal_stop
  ok (record { report = r; saw_end_of_trace = true })

unfoldable pub mark_trace_truncated : CompletenessTracker → Tracked
mark_trace_truncated t = with_report t (add t.report CompletenessIssue.trace_truncated)

unfoldable pub mark_writer_error : CompletenessTracker → Tracked
mark_writer_error t =
    with_report t
      do r ← add t.report CompletenessIssue.writer_error; add r CompletenessIssue.event_loss

unfoldable pub mark_unknown_record_skipped : CompletenessTracker → Tracked
mark_unknown_record_skipped t =
    with_report t (add t.report CompletenessIssue.unknown_record_skipped)

unfoldable pub mark_partially_understood_format : CompletenessTracker → Tracked
mark_partially_understood_format t =
    with_report t (add t.report CompletenessIssue.partially_understood_format)

unfoldable pub mark_custom_hook_install_failed : CompletenessTracker → Tracked
mark_custom_hook_install_failed t =
    with_report t (add t.report CompletenessIssue.custom_hook_install_failed)
