-- ===== src/Trace/Completeness/Issues.antt =====
-- src/trace/completeness.cpp: the issues of a report, one by one.
use noleax.Prelude.{ℕ, ◌^◌, ◌<◌, ◌≡◌, refl, if◌then◌else◌, ◌==◌, arith}
use noleax.Prelude.Bits.{digit, bit_not, digit-bit_or, digit-pow, is_set-digit}
use noleax.Prelude.Error.{ok}
use noleax.Trace.Completeness.{
  CompletenessIssue, capture_did_not_start_at_process_start, preexisting_allocations_unknown,
  event_loss, trace_truncated, writer_error, unknown_record_skipped, missing_end_of_trace,
  abnormal_stop, stack_data_loss, partially_understood_format, custom_hook_install_failed, other,
  CompletenessReport, from_mask, issue_value, known_issue_mask, issue_bit, add, remove, has,
}
use Prim.Native.Nat.{max, bit_and, bit_or}

-- The place of the bit of a named issue.
abbrev pub issue_index : CompletenessIssue → ℕ
issue_index capture_did_not_start_at_process_start = 0
issue_index preexisting_allocations_unknown = 1
issue_index event_loss = 2
issue_index trace_truncated = 3
issue_index writer_error = 4
issue_index unknown_record_skipped = 5
issue_index missing_end_of_trace = 6
issue_index abnormal_stop = 7
issue_index stack_data_loss = 8
issue_index partially_understood_format = 9
issue_index custom_hook_install_failed = 10
issue_index (other n) = 11

abbrev pub IsNamed : CompletenessIssue → Type 0
IsNamed issue = issue_index issue < 11

pub issue_bit-IsNamed :
    (issue : CompletenessIssue) → IsNamed issue → issue_bit issue ≡ ok (2 ^ issue_index issue)
unfolding issue_bit issue_value known_issue_mask
issue_bit-IsNamed capture_did_not_start_at_process_start h = refl
issue_bit-IsNamed preexisting_allocations_unknown h = refl
issue_bit-IsNamed event_loss h = refl
issue_bit-IsNamed trace_truncated h = refl
issue_bit-IsNamed writer_error h = refl
issue_bit-IsNamed unknown_record_skipped h = refl
issue_bit-IsNamed missing_end_of_trace h = refl
issue_bit-IsNamed abnormal_stop h = refl
issue_bit-IsNamed stack_data_loss h = refl
issue_bit-IsNamed partially_understood_format h = refl
issue_bit-IsNamed custom_hook_install_failed h = refl
issue_bit-IsNamed (other n) h = absurd (omega arith)

-- One for the place of the issue, and zero elsewhere.
abbrev pub raised : CompletenessIssue → ℕ → ℕ
raised issue k = if issue_index issue == k then 1 else 0

-- Whether the report has the bit at a place.
abbrev pub bit_at : ℕ → CompletenessReport → ℕ
bit_at k report = digit k report.mask

pub add-IsNamed :
    (r : CompletenessReport) (i : CompletenessIssue)
    → IsNamed i
    → add r i ≡ ok (from_mask (bit_or r.mask (2 ^ issue_index i)))
unfolding add
add-IsNamed r i h = rw (issue_bit-IsNamed i h)

pub remove-IsNamed :
    (r : CompletenessReport) (i : CompletenessIssue)
    → IsNamed i
    → remove r i ≡ ok (from_mask (bit_and r.mask (bit_not (2 ^ issue_index i))))
unfolding remove
remove-IsNamed r i h = rw (issue_bit-IsNamed i h)

pub bit_at-or :
    (k m : ℕ) (i : CompletenessIssue)
    → digit k (bit_or m (2 ^ issue_index i)) ≡ max (digit k m) (raised i k)
bit_at-or k m i = rw (digit-bit_or k m (2 ^ issue_index i), digit-pow k (issue_index i))

pub has-IsNamed :
    (r : CompletenessReport) (i : CompletenessIssue)
    → IsNamed i
    → has r i ≡ ok (bit_at (issue_index i) r == 1)
unfolding has
has-IsNamed r i h = rw (issue_bit-IsNamed i h, is_set-digit (issue_index i) r.mask)
