-- ===== src/Trace/Completeness/History.antt =====
-- src/trace/completeness.cpp: a tracker's report, from the sequence of what it has observed.
use noleax.Prelude.{ℕ, ◌≡◌, refl, List, [], ◌∷◌, Bool, true, false, not, ◌||◌, if◌then◌else◌, arith}
use noleax.Prelude.Error.{Result, ok, ◌>>=◌, Holds, Holds-bind, Holds-then, Holds-mono}
use noleax.Trace.Completeness.{CompletenessIssue, CompletenessReport, add}
use noleax.Trace.Completeness.Issues.{IsNamed, raised, bit_at, add-IsNamed, bit_at-or}
use noleax.Trace.Completeness.Statistics.{LossRecord, reject_if, validate_loss_record}
use noleax.Trace.Completeness.Tracker.{
  EndOfTrace, CompletenessTracker, add_if, observe_loss, observe_end_of_trace, mark_trace_truncated,
  mark_writer_error, mark_unknown_record_skipped, mark_partially_understood_format,
  mark_custom_hook_install_failed, is_stack_capture_failed, is_writer_error,
}
use Prim.Native.Nat.{max}

-- A call of one of the tracker's operations.
pub data Observation : Type 0 where
  loss : LossRecord → Observation
  end_of_trace : EndOfTrace → Observation
  trace_truncated writer_failed unknown_record_skipped : Observation
  partially_understood_format custom_hook_install_failed : Observation

unfoldable pub step : CompletenessTracker → Observation → Result CompletenessTracker
step t (loss l) = observe_loss t l
step t (end_of_trace e) = observe_end_of_trace t e
step t trace_truncated = mark_trace_truncated t
step t writer_failed = mark_writer_error t
step t unknown_record_skipped = mark_unknown_record_skipped t
step t partially_understood_format = mark_partially_understood_format t
step t custom_hook_install_failed = mark_custom_hook_install_failed t

unfoldable pub run : CompletenessTracker → List Observation → Result CompletenessTracker
run t [] = ok t
run t (o ∷ os) = do t' ← step t o; run t' os

unfoldable pub raised_if : Bool → CompletenessIssue → ℕ → ℕ
raised_if test issue k = if test then raised issue k else 0

-- The bits that an observation sets, apart from what the tracker holds already.
unfoldable pub raises : Observation → ℕ → ℕ
unfolding raised_if
raises (loss l) k =
    if is_stack_capture_failed l.reason
    then raised CompletenessIssue.stack_data_loss k
    else max (raised CompletenessIssue.event_loss k)
        (raised_if (is_writer_error l.reason) CompletenessIssue.writer_error k)
raises (end_of_trace e) k =
    max (bit_at k e.aggregate_completeness)
      (raised_if (not e.normal_stop) CompletenessIssue.abnormal_stop k)
raises trace_truncated k = raised CompletenessIssue.trace_truncated k
raises writer_failed k =
    max (raised CompletenessIssue.writer_error k) (raised CompletenessIssue.event_loss k)
raises unknown_record_skipped k = raised CompletenessIssue.unknown_record_skipped k
raises partially_understood_format k = raised CompletenessIssue.partially_understood_format k
raises custom_hook_install_failed k = raised CompletenessIssue.custom_hook_install_failed k

unfoldable pub raises_all : List Observation → ℕ → ℕ
raises_all [] k = 0
raises_all (o ∷ os) k = max (raises o k) (raises_all os k)

-- Exactly the bits of `f` are added to a report.
unfoldable pub Raises : CompletenessReport → (ℕ → ℕ) → CompletenessReport → Type 0
Raises r f r' = (k : ℕ) → bit_at k r' ≡ max (bit_at k r) (f k)

Holds-add :
    (r : CompletenessReport) (i : CompletenessIssue)
    → IsNamed i
    → Holds (Raises r (raised i)) (add r i)
unfolding Raises
Holds-add r i h = rw (add-IsNamed r i h) (λ k. bit_at-or k r.mask i)

pub Holds-add_if :
    (b : Bool) (r : CompletenessReport) (i : CompletenessIssue)
    → IsNamed i
    → Holds (Raises r (raised_if b i)) (add_if b r i)
unfolding Raises add_if raised_if
Holds-add_if true r i h = rw (add-IsNamed r i h) (λ k. bit_at-or k r.mask i)
Holds-add_if false r i h = λ k. omega arith

-- The state keeps its place in the trace, and exactly the bits of `f` are added to its report.
unfoldable pub Grows : CompletenessTracker → (ℕ → ℕ) → CompletenessTracker → Type 0
Grows t f t' = Raises t.report f t'.report × (t'.saw_end_of_trace ≡ t.saw_end_of_trace)

with_report : CompletenessTracker → CompletenessReport → CompletenessTracker
with_report t r = record { report = r; saw_end_of_trace = t.saw_end_of_trace }

Holds-with_report :
    (t : CompletenessTracker) (f : ℕ → ℕ) (m : Result CompletenessReport)
    → Holds (Raises t.report f) m
    → Holds (Grows t f) (m >>= λ r. ok (with_report t r))
unfolding Grows with_report
Holds-with_report t f m h = Holds-bind _ _ m _ h λ r hr. (hr, refl)

Holds-mark :
    (t : CompletenessTracker) (i : CompletenessIssue)
    → IsNamed i
    → Holds (Grows t (raised i)) (add t.report i >>= λ r. ok (with_report t r))
Holds-mark t i h = Holds-with_report t _ _ (Holds-add t.report i h)

-- Two additions, one after the other.
Holds-add_both :
    (r : CompletenessReport) (i j : CompletenessIssue) (c : Bool)
    → IsNamed i
    → IsNamed j
    → Holds (Raises r (λ k. max (raised i k) (raised_if c j k))) (add r i >>= λ r'. add_if c r' j)
unfolding Raises
Holds-add_both r i j c hi hj =
    Holds-bind (Raises r (λ k. max (raised i k) (raised_if c j k))) (Raises r (raised i)) (add r i)
      _ (Holds-add r i hi)
      (λ r' h.
        Holds-mono (Raises r' (raised_if c j)) (Raises r (λ k. max (raised i k) (raised_if c j k)))
          (add_if c r' j) (λ r'' h' k. omega (arith, h k, h' k)) (Holds-add_if c r' j hj))

loss_report : (t : CompletenessTracker) (b c : Bool) → Result CompletenessTracker
loss_report t b c =
    if b
    then (add t.report CompletenessIssue.stack_data_loss >>= λ r. ok (with_report t r))
    else ((add t.report CompletenessIssue.event_loss >>= λ r.
          add_if c r CompletenessIssue.writer_error)
        >>= λ r. ok (with_report t r))

Holds-loss_report :
    (t : CompletenessTracker) (b c : Bool)
    → Holds
        (Grows t (λ k.
          if b
          then raised CompletenessIssue.stack_data_loss k
          else max
              (raised CompletenessIssue.event_loss k)
              (raised_if c CompletenessIssue.writer_error k)))
        (loss_report t b c)
unfolding loss_report
Holds-loss_report t true c = Holds-mark t CompletenessIssue.stack_data_loss (omega arith)
Holds-loss_report t false c = Holds-with_report t _ _ (
    Holds-add_both t.report CompletenessIssue.event_loss CompletenessIssue.writer_error c
      (omega arith) (omega arith))

-- Every operation but that of the end only adds bits.
unfoldable pub is_end : Observation → Bool
is_end (end_of_trace e) = true
is_end _ = false

unfoldable pub has_end : List Observation → Bool
has_end [] = false
has_end (o ∷ os) = is_end o || has_end os

pub Holds-step :
    (t : CompletenessTracker) (o : Observation)
    → is_end o ≡ false
    → Holds (Grows t (raises o)) (step t o)
unfolding step raises is_end observe_loss mark_trace_truncated mark_writer_error
    mark_unknown_record_skipped mark_partially_understood_format mark_custom_hook_install_failed
    with_report loss_report raised_if add_if
Holds-step t (loss l) h =
    Holds-then (Grows t (raises (loss l)))
      (reject_if t.saw_end_of_trace "Loss record appears after EndOfTrace") _
      (Holds-then (Grows t (raises (loss l))) (validate_loss_record l) _
        (Holds-loss_report t (is_stack_capture_failed l.reason) (is_writer_error l.reason)))
Holds-step t (end_of_trace e) h = absurd cc
Holds-step t trace_truncated h = Holds-mark t CompletenessIssue.trace_truncated (omega arith)
Holds-step t writer_failed h = Holds-with_report t _ _ (
    Holds-add_both t.report CompletenessIssue.writer_error CompletenessIssue.event_loss true
      (omega arith) (omega arith))
Holds-step t unknown_record_skipped h =
    Holds-mark t CompletenessIssue.unknown_record_skipped (omega arith)
Holds-step t partially_understood_format h =
    Holds-mark t CompletenessIssue.partially_understood_format (omega arith)
Holds-step t custom_hook_install_failed h =
    Holds-mark t CompletenessIssue.custom_hook_install_failed (omega arith)
