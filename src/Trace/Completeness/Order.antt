-- ===== src/Trace/Completeness/Order.antt =====
-- src/trace/completeness.cpp: which sequences of observations a tracker takes without an exception.
use noleax.Prelude.{
  ℕ, ◌≡◌, refl, ◌∙◌, ap, List, [], ◌∷◌, Bool, true, false, Option, none, some, not, ◌&&◌, ◌||◌, leb,
  ◌==◌, arith,
}
use noleax.Prelude.Error.{ok, ◌>>=◌}
use noleax.Prelude.Success.{is_ok, is_ok-bind, is_ok-checked, is_ok-guarded, is_ok-if, is_ok-total}
use noleax.Prelude.Bits.{digit_le}
use noleax.Trace.Completeness.{CompletenessIssue, CompletenessReport, from_mask, add, merge}
use noleax.Trace.Completeness.Issues.{IsNamed, bit_at, add-IsNamed, remove-IsNamed, has-IsNamed}
use noleax.Trace.Completeness.Statistics.{
  LossRecord, SequenceRange, TickRange, validate_loss_record, is_known_loss_reason,
  is_known_loss_location,
}
use noleax.Trace.Completeness.Tracker.{
  CaptureScope, EndOfTrace, CompletenessTracker, add_if, new_tracker, validate_capture_scope,
  validate_end_of_trace, observe_loss, observe_end_of_trace, mark_trace_truncated,
  mark_writer_error, mark_unknown_record_skipped, mark_partially_understood_format,
  mark_custom_hook_install_failed, is_stack_capture_failed, is_writer_error,
}
use noleax.Trace.Completeness.History.{
  Observation, loss, end_of_trace, trace_truncated, writer_failed, unknown_record_skipped,
  partially_understood_format, custom_hook_install_failed, step, run, is_end,
}
use noleax.Trace.Completeness.Outcome.{
  IsTracked, Steps, Holds-Steps, Begins, Holds-new_tracker, new_tracker-IsTracked,
}

-- What a loss record must say: a reason and a location that have a name, a number of events that is
-- not 0, and ranges that are not reversed, the one of sequence numbers without a 0.
unfoldable is_positive : Option ℕ → Bool
is_positive none = true
is_positive (some count) = leb 1 count

unfoldable is_sequence_range : Option SequenceRange → Bool
is_sequence_range none = true
is_sequence_range (some range) = leb 1 range.begin && leb range.begin range.end

unfoldable is_tick_range : Option TickRange → Bool
is_tick_range none = true
is_tick_range (some range) = leb range.begin range.end

unfoldable is_loss : LossRecord → Bool
is_loss l =
    is_known_loss_reason l.reason
    && (is_known_loss_location l.location
        && (is_positive l.estimated_event_count
            && (is_sequence_range l.sequence_range && is_tick_range l.tick_range)))

-- The aggregate of an end does not report that the end is missing, nor that a normal stop was
-- abnormal.
unfoldable is_proper_end : EndOfTrace → Bool
is_proper_end e =
    (bit_at 6 e.aggregate_completeness == 0)
    && not (e.normal_stop && (bit_at 7 e.aggregate_completeness == 1))

-- Losses and the end come before the end only; everything else is taken at any time.
unfoldable takes : Bool → Observation → Bool
takes seen (loss l) = not seen && is_loss l
takes seen (end_of_trace e) = not seen && is_proper_end e
takes seen _ = true

unfoldable pub takes_all : Bool → List Observation → Bool
unfolding takes is_loss is_positive is_sequence_range is_tick_range is_proper_end
takes_all seen [] = true
takes_all seen (o ∷ os) = takes seen o && takes_all (is_end o || seen) os

is_ok-validate_loss_record : (l : LossRecord) → is_ok (validate_loss_record l) ≡ is_loss l
unfolding validate_loss_record is_loss is_positive is_sequence_range is_tick_range
is_ok-validate_loss_record l = ground arith

is_ok-validate_end_of_trace : (e : EndOfTrace) → is_ok (validate_end_of_trace e) ≡ is_proper_end e
unfolding validate_end_of_trace is_proper_end
is_ok-validate_end_of_trace e =
    rw
      (
        has-IsNamed e.aggregate_completeness CompletenessIssue.missing_end_of_trace (omega arith),
        has-IsNamed e.aggregate_completeness CompletenessIssue.abnormal_stop (omega arith),
      )
      (ground (arith, digit_le 6 e.aggregate_completeness.mask))

is_ok-add_if :
    (b : Bool) (r : CompletenessReport) (i : CompletenessIssue)
    → IsNamed i
    → is_ok (add_if b r i) ≡ true
unfolding add_if
is_ok-add_if true r i h = rw (add-IsNamed r i h) refl
is_ok-add_if false r i h = refl

is_ok-add : (r : CompletenessReport) (i : CompletenessIssue) → IsNamed i → is_ok (add r i) ≡ true
is_ok-add r i h = rw (add-IsNamed r i h) refl

is_ok-observe_loss :
    (t : CompletenessTracker) (l : LossRecord)
    → is_ok (observe_loss t l) ≡ (not t.saw_end_of_trace && is_loss l)
unfolding observe_loss
is_ok-observe_loss t l =
    is_ok-checked t.saw_end_of_trace (is_loss l) _ (validate_loss_record l) _
      (is_ok-validate_loss_record l)
      (is_ok-if (is_stack_capture_failed l.reason) _ _
        (is_ok-total (add t.report CompletenessIssue.stack_data_loss) _
          (is_ok-add t.report CompletenessIssue.stack_data_loss (omega arith)) (λ r. refl))
        (is_ok-total
          (add t.report CompletenessIssue.event_loss >>= λ r.
            add_if (is_writer_error l.reason) r CompletenessIssue.writer_error)
          _
          (is_ok-total (add t.report CompletenessIssue.event_loss) _
            (is_ok-add t.report CompletenessIssue.event_loss (omega arith))
            (λ r.
              is_ok-add_if (is_writer_error l.reason) r CompletenessIssue.writer_error
                (omega arith)))
          (λ r. refl)))

is_ok-observe_end_of_trace :
    (t : CompletenessTracker) (e : EndOfTrace)
    → is_ok (observe_end_of_trace t e) ≡ (not t.saw_end_of_trace && is_proper_end e)
unfolding observe_end_of_trace
is_ok-observe_end_of_trace t e =
    is_ok-checked t.saw_end_of_trace (is_proper_end e) _ (validate_end_of_trace e) _
      (is_ok-validate_end_of_trace e)
      (rw (remove-IsNamed t.report CompletenessIssue.missing_end_of_trace (omega arith)) (
        is_ok-total
          (add_if (not e.normal_stop) (merge _ e.aggregate_completeness)
            CompletenessIssue.abnormal_stop)
          _ (is_ok-add_if (not e.normal_stop) _ CompletenessIssue.abnormal_stop (omega arith))
          (λ r. refl)))

is_ok-mark :
    (t : CompletenessTracker) (i : CompletenessIssue)
    → IsNamed i
    → is_ok {A = CompletenessTracker}
        (add t.report i >>= λ r. ok (record { report = r; saw_end_of_trace = t.saw_end_of_trace }))
      ≡ true
is_ok-mark t i h = is_ok-total (add t.report i) _ (is_ok-add t.report i h) (λ r. refl)

is_ok-step :
    (t : CompletenessTracker) (o : Observation) → is_ok (step t o) ≡ takes t.saw_end_of_trace o
unfolding step takes mark_trace_truncated mark_writer_error mark_unknown_record_skipped
    mark_partially_understood_format mark_custom_hook_install_failed
is_ok-step t (loss l) = is_ok-observe_loss t l
is_ok-step t (end_of_trace e) = is_ok-observe_end_of_trace t e
is_ok-step t trace_truncated = is_ok-mark t CompletenessIssue.trace_truncated (omega arith)
is_ok-step t writer_failed =
    is_ok-total
      (add t.report CompletenessIssue.writer_error >>= λ r. add r CompletenessIssue.event_loss) _
      (is_ok-total (add t.report CompletenessIssue.writer_error) _
        (is_ok-add t.report CompletenessIssue.writer_error (omega arith))
        (λ r. is_ok-add r CompletenessIssue.event_loss (omega arith)))
      (λ r. refl)
is_ok-step t unknown_record_skipped =
    is_ok-mark t CompletenessIssue.unknown_record_skipped (omega arith)
is_ok-step t partially_understood_format =
    is_ok-mark t CompletenessIssue.partially_understood_format (omega arith)
is_ok-step t custom_hook_install_failed =
    is_ok-mark t CompletenessIssue.custom_hook_install_failed (omega arith)

is_ok-run-IsTracked :
    (os : List Observation) (t : CompletenessTracker)
    → IsTracked t
    → is_ok (run t os) ≡ takes_all t.saw_end_of_trace os
unfolding run takes_all Steps
is_ok-run-IsTracked [] t h = refl
is_ok-run-IsTracked (o ∷ os) t h =
    is_ok-bind (Steps t o) (step t o) _ (takes_all (is_end o || t.saw_end_of_trace) os)
      (Holds-Steps t o h)
      (λ t' (h', seen, bits). is_ok-run-IsTracked os t' h' ∙ ap (λ b. takes_all b os) seen)
    ∙ ap (λ b. b && takes_all (is_end o || t.saw_end_of_trace) os) (is_ok-step t o)

is_ok-new_tracker :
    (scope : CaptureScope)
    → is_ok (new_tracker scope)
      ≡ not (scope.started_at_process_start && scope.preexisting_allocations_unknown)
unfolding new_tracker validate_capture_scope
is_ok-new_tracker scope =
    is_ok-guarded (scope.started_at_process_start && scope.preexisting_allocations_unknown) _ _ (
      is_ok-total (add (from_mask 0) CompletenessIssue.missing_end_of_trace) _
        (is_ok-add _ CompletenessIssue.missing_end_of_trace (omega arith))
        (λ r.
          is_ok-total
            (add_if (not scope.started_at_process_start) r
              CompletenessIssue.capture_did_not_start_at_process_start)
            _
            (is_ok-add_if (not scope.started_at_process_start) r
              CompletenessIssue.capture_did_not_start_at_process_start (omega arith))
            (λ r'.
              is_ok-total
                (add_if scope.preexisting_allocations_unknown r'
                  CompletenessIssue.preexisting_allocations_unknown)
                _
                (is_ok-add_if scope.preexisting_allocations_unknown r'
                  CompletenessIssue.preexisting_allocations_unknown (omega arith))
                (λ r''. refl))))

-- A new tracker takes its scope and then the observations without an exception exactly where the
-- scope does not claim the start of the process together with unknown earlier allocations; each loss
-- has a known reason and location, no count of 0, no reversed range and no sequence number 0; each end
-- reports no missing end, nor an abnormal stop where it is normal; and after an end there is no loss
-- and no second end. The five marks are taken at any time.
pub is_ok-run :
    (scope : CaptureScope) (os : List Observation)
    → is_ok (new_tracker scope >>= λ t. run t os) ≡ (
        not (scope.started_at_process_start && scope.preexisting_allocations_unknown)
        && takes_all false os)
unfolding Begins
is_ok-run scope os =
    is_ok-bind (Begins scope) (new_tracker scope) _ (takes_all false os) (Holds-new_tracker scope)
      (λ t begins.
        is_ok-run-IsTracked os t (new_tracker-IsTracked scope t begins)
        ∙ ap (λ b. takes_all b os) begins.1)
    ∙ ap (λ b. b && takes_all false os) (is_ok-new_tracker scope)
