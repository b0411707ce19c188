-- ===== src/Trace/Completeness/Outcome.antt =====
-- src/trace/completeness.cpp: a tracker's report over its whole life, the end of the trace included.
use noleax.Prelude.{
  ℕ, ◌<◌, ◌≡◌, refl, Bool, ◌≢◌, List, [], ◌∷◌, true, false, not, ◌||◌, if◌then◌else◌, ◌==◌, arith,
}
use noleax.Prelude.Bits.{bit_not, digit-bit_or, digit-zero, digit_le}
use noleax.Prelude.Error.{
  ok, Holds, Holds-throw_if, Holds-bind, Holds-then, Holds-mono, Holds-intro, Holds-ok,
}
use noleax.Trace.Completeness.{CompletenessIssue, CompletenessReport, from_mask, merge, has}
use noleax.Trace.Completeness.Issues.{
  raised, bit_at, add-IsNamed, remove-IsNamed, has-IsNamed, bit_at-or,
}
use noleax.Trace.Completeness.Reports.{bit_at-remove}
use noleax.Trace.Completeness.Statistics.{reject_if}
use noleax.Trace.Completeness.Tracker.{
  CaptureScope, EndOfTrace, CompletenessTracker, add_if, new_tracker, validate_capture_scope,
  validate_end_of_trace, observe_end_of_trace,
}
use Prim.Native.Nat.{max, bit_or, bit_and}
use noleax.Trace.Completeness.History.{
  Observation, loss, end_of_trace, trace_truncated, writer_failed, unknown_record_skipped,
  partially_understood_format, custom_hook_install_failed, step, run, raised_if, raises, raises_all,
  Raises, Holds-add_if, Grows, is_end, has_end, Holds-step,
}

Holds-validate_end_of_trace :
    (e : EndOfTrace) → Holds (λ _. bit_at 6 e.aggregate_completeness ≡ 0) (validate_end_of_trace e)
unfolding validate_end_of_trace
Holds-validate_end_of_trace e =
    rw (has-IsNamed e.aggregate_completeness CompletenessIssue.missing_end_of_trace (omega arith)) (
      Holds-throw_if (λ _. bit_at 6 e.aggregate_completeness ≡ 0)
        (bit_at 6 e.aggregate_completeness == 1) _ _
        (λ clear.
          Holds-intro (λ _. bit_at 6 e.aggregate_completeness ≡ 0) _
            (λ u h. ground (arith, clear, digit_le 6 e.aggregate_completeness.mask))))

-- The bits after the end of the trace: none for its absence, and the rest as they were or as the
-- end reports them.
Ends : CompletenessTracker → EndOfTrace → CompletenessTracker → Type 0
Ends t e t' =
    (t'.saw_end_of_trace ≡ true)
    × (bit_at 6 t'.report ≡ 0)
    × ((k : ℕ)
        → k < 32
        → k ≢ 6
        → bit_at k t'.report ≡ max (bit_at k t.report) (raises (end_of_trace e) k))

-- The report when the aggregate of the end has been merged into it.
merged : CompletenessTracker → EndOfTrace → CompletenessReport
merged t e = merge (from_mask (bit_and t.report.mask (bit_not 64))) e.aggregate_completeness

merged_bit :
    (k : ℕ) (t : CompletenessTracker) (e : EndOfTrace)
    → k < 32
    → bit_at k (merged t e)
      ≡ max (if 6 == k then 0 else bit_at k t.report) (bit_at k e.aggregate_completeness)
unfolding merged merge
merged_bit k t e lt = omega (
  arith,
  digit-bit_or k (bit_and t.report.mask (bit_not 64)) e.aggregate_completeness.mask,
  bit_at-remove k t.report.mask CompletenessIssue.missing_end_of_trace (omega arith) lt,
)

Holds-observe_end_of_trace :
    (t : CompletenessTracker) (e : EndOfTrace) → Holds (Ends t e) (observe_end_of_trace t e)
unfolding observe_end_of_trace merge merged Ends Raises raises raised_if
Holds-observe_end_of_trace t e =
    Holds-then (Ends t e)
      (reject_if t.saw_end_of_trace "trace contains more than one EndOfTrace record") _
      (Holds-bind (Ends t e) (λ _. bit_at 6 e.aggregate_completeness ≡ 0) (validate_end_of_trace e)
        _ (Holds-validate_end_of_trace e)
        (λ _ clear.
          rw (remove-IsNamed t.report CompletenessIssue.missing_end_of_trace (omega arith)) (
            Holds-bind (Ends t e)
              (Raises (merged t e) (raised_if (not e.normal_stop) CompletenessIssue.abnormal_stop))
              (add_if (not e.normal_stop) (merged t e) CompletenessIssue.abnormal_stop) _
              (Holds-add_if (not e.normal_stop) (merged t e) CompletenessIssue.abnormal_stop
                (omega arith))
              (λ r h. (
                refl,
                ground (arith, h 6, clear, merged_bit 6 t e),
                λ k lt n. ground (arith, h k, merged_bit k t e),
              )))))

-- The absence of an end is reported as long as none was seen.
unfoldable pub IsTracked : CompletenessTracker → Type 0
IsTracked t = bit_at 6 t.report ≡ (if t.saw_end_of_trace then 0 else 1)

-- An end has been seen where one had been or is among the observations; the report has what it
-- had, and what the observations raise.
Follows : CompletenessTracker → List Observation → CompletenessTracker → Type 0
Follows t os t' =
    IsTracked t'
    × (t'.saw_end_of_trace ≡ (has_end os || t.saw_end_of_trace))
    × ((k : ℕ) → k < 32 → k ≢ 6 → bit_at k t'.report ≡ max (bit_at k t.report) (raises_all os k))

raises-missing : (o : Observation) → is_end o ≡ false → raises o 6 ≡ 0
unfolding raises raised_if is_end
raises-missing (loss l) h = ground arith
raises-missing (end_of_trace e) h = absurd cc
raises-missing trace_truncated h = refl
raises-missing writer_failed h = refl
raises-missing unknown_record_skipped h = refl
raises-missing partially_understood_format h = refl
raises-missing custom_hook_install_failed h = refl

unfoldable pub Steps : CompletenessTracker → Observation → CompletenessTracker → Type 0
Steps t o t' =
    IsTracked t'
    × (t'.saw_end_of_trace ≡ (is_end o || t.saw_end_of_trace))
    × ((k : ℕ) → k < 32 → k ≢ 6 → bit_at k t'.report ≡ max (bit_at k t.report) (raises o k))

Ends-Steps :
    (t : CompletenessTracker) (e : EndOfTrace) (t' : CompletenessTracker)
    → Ends t e t'
    → Steps t (end_of_trace e) t'
unfolding Ends Steps IsTracked is_end
Ends-Steps t e t' (seen, clear, bits) = (ground (arith, seen, clear), seen, bits)

Grows-Steps :
    (t : CompletenessTracker) (o : Observation) (t' : CompletenessTracker)
    → is_end o ≡ false
    → IsTracked t
    → Grows t (raises o) t'
    → Steps t o t'
unfolding Grows Raises Steps IsTracked
Grows-Steps t o t' h tracked (bits, seen) =
    (ground (arith, raises-missing o h, bits 6, seen, tracked), rw (h, seen), λ k lt n. bits k)

pub Holds-Steps :
    (t : CompletenessTracker) (o : Observation) → IsTracked t → Holds (Steps t o) (step t o)
unfolding step is_end
Holds-Steps t (end_of_trace e) h =
    Holds-mono (Ends t e) (Steps t (end_of_trace e)) (observe_end_of_trace t e) (Ends-Steps t e)
      (Holds-observe_end_of_trace t e)
Holds-Steps t o h =
    Holds-mono (Grows t (raises o)) (Steps t o) (step t o) (λ t' g. Grows-Steps t o t' refl h g)
      (Holds-step t o refl)

seen_later : (b c x y z : Bool) → y ≡ (b || x) → z ≡ (c || y) → z ≡ ((b || c) || x)
seen_later b c x y z h h' = ground arith

Holds-run :
    (os : List Observation) (t : CompletenessTracker)
    → IsTracked t
    → Holds (Follows t os) (run t os)
unfolding run raises_all has_end Follows Steps
Holds-run [] t h = (h, refl, λ k lt n. omega arith)
Holds-run (o ∷ os) t h =
    Holds-bind (Follows t (o ∷ os)) (Steps t o) (step t o) _ (Holds-Steps t o h)
      (λ t' (h', seen, bits).
        Holds-mono (Follows t' os) (Follows t (o ∷ os)) (run t' os)
          (λ t'' (h'', seen', bits'). (
            h'',
            seen_later (is_end o) (has_end os) _ _ _ seen seen',
            λ k lt n. omega (arith, bits k lt n, bits' k lt n),
          ))
          (Holds-run os t' h'))

-- The bits of a new tracker.
unfoldable pub scope_raises : CaptureScope → ℕ → ℕ
unfolding raised_if
scope_raises scope k =
    max
      (max (raised CompletenessIssue.missing_end_of_trace k) (
        raised_if (not scope.started_at_process_start)
          CompletenessIssue.capture_did_not_start_at_process_start k))
      (raised_if scope.preexisting_allocations_unknown
        CompletenessIssue.preexisting_allocations_unknown k)

unfoldable pub Begins : CaptureScope → CompletenessTracker → Type 0
Begins scope t = ((k : ℕ) → bit_at k t.report ≡ scope_raises scope k) × (t.saw_end_of_trace ≡ false)

pub Holds-new_tracker : (scope : CaptureScope) → Holds (Begins scope) (new_tracker scope)
unfolding new_tracker Begins scope_raises Raises
Holds-new_tracker scope = Holds-then (Begins scope) (validate_capture_scope scope) _ (
    rw (add-IsNamed (from_mask 0) CompletenessIssue.missing_end_of_trace (omega arith)) (
      Holds-bind (Begins scope)
        (Raises (from_mask (bit_or 0 64)) (
          raised_if (not scope.started_at_process_start)
            CompletenessIssue.capture_did_not_start_at_process_start))
        _ _
        (Holds-add_if (not scope.started_at_process_start) (from_mask (bit_or 0 64))
          CompletenessIssue.capture_did_not_start_at_process_start (omega arith))
        (λ r h.
          Holds-bind (Begins scope)
            (Raises r (
              raised_if scope.preexisting_allocations_unknown
                CompletenessIssue.preexisting_allocations_unknown))
            _ _
            (Holds-add_if scope.preexisting_allocations_unknown r
              CompletenessIssue.preexisting_allocations_unknown (omega arith))
            (λ r' h'. (
              (λ k. omega (
                arith,
                h k,
                h' k,
                bit_at-or k 0 CompletenessIssue.missing_end_of_trace,
                digit-zero k,
              )),
              refl,
            )))))

pub new_tracker-IsTracked :
    (scope : CaptureScope) (t : CompletenessTracker) → Begins scope t → IsTracked t
unfolding Begins IsTracked scope_raises raised_if
new_tracker-IsTracked scope t (bits, seen) = ground (arith, bits 6, seen)

seen_at_last : (c x y : Bool) → x ≡ false → y ≡ (c || x) → y ≡ c
seen_at_last c x y h h' = ground arith

-- Of a tracker that took a scope and then any observations without an exception: it has seen an end
-- exactly where the end of the trace is one of the observations, it reports a missing end exactly
-- where none of them is, and it reports any other of the 32 bits exactly where the scope, a loss, a
-- mark or the aggregate of an end raised it, whatever their order.
pub run-new_tracker :
    (scope : CaptureScope) (os : List Observation) (t t' : CompletenessTracker)
    → new_tracker scope ≡ ok t
    → run t os ≡ ok t'
    → (t'.saw_end_of_trace ≡ has_end os)
      × (has t'.report CompletenessIssue.missing_end_of_trace ≡ ok (not (has_end os)))
      × ((k : ℕ)
          → k < 32
          → k ≢ 6
          → bit_at k t'.report ≡ max (scope_raises scope k) (raises_all os k))
unfolding Begins Follows IsTracked
run-new_tracker scope os t t' e e' =
    let begins = Holds-ok (Begins scope) (new_tracker scope) e (Holds-new_tracker scope) in
    let follows =
      Holds-ok (Follows t os) (run t os) e'
        (Holds-run os t (new_tracker-IsTracked scope t begins)) in
    let seen = seen_at_last (has_end os) _ _ begins.1 follows.1 in
    (
      seen,
      rw (has-IsNamed t'.report CompletenessIssue.missing_end_of_trace (omega arith))
          (ground (arith, follows.0, seen)),
      λ k lt n. omega (arith, begins.0 k, follows.2 k lt n),
    )
