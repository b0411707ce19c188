-- ===== src/Trace/Completeness.antt =====
-- include/noleax/trace/completeness.hpp and src/trace/completeness.cpp: the report, a word of 32
-- bits with one for each issue. `CompletenessIssue.other` is a value of the enumeration's
-- representation that has no name.
pub mod Statistics
pub mod Tracker
mod History
mod Outcome
mod Order
mod Tests
mod Consistency
mod Accepted
pub mod Issues
mod Reports
use noleax.Prelude.{ℕ, ◌-◌, ◌^◌, ◌<◌, Bool, ◌&&◌, ◌||◌, if◌then◌else◌, ◌==◌, ◌!=◌, sub_u64}
use noleax.Prelude.Bits.{bit_not}
use noleax.Prelude.Error.{Result, ok, completeness_validation_error, throw_if, ◌>>=◌, ◌>>◌}
use Prim.Native.Nat.{bit_and, bit_or}

pub data CompletenessIssue : Type 0 where
  capture_did_not_start_at_process_start : CompletenessIssue
  preexisting_allocations_unknown : CompletenessIssue
  event_loss trace_truncated writer_error unknown_record_skipped : CompletenessIssue
  missing_end_of_trace abnormal_stop stack_data_loss : CompletenessIssue
  partially_understood_format custom_hook_install_failed : CompletenessIssue
  other : ℕ → CompletenessIssue

-- `static_cast<std::uint32_t>(issue)`
unfoldable pub issue_value : CompletenessIssue → ℕ
issue_value capture_did_not_start_at_process_start = 2 ^ 0
issue_value preexisting_allocations_unknown = 2 ^ 1
issue_value event_loss = 2 ^ 2
issue_value trace_truncated = 2 ^ 3
issue_value writer_error = 2 ^ 4
issue_value unknown_record_skipped = 2 ^ 5
issue_value missing_end_of_trace = 2 ^ 6
issue_value abnormal_stop = 2 ^ 7
issue_value stack_data_loss = 2 ^ 8
issue_value partially_understood_format = 2 ^ 9
issue_value custom_hook_install_failed = 2 ^ 10
issue_value (other n) = n

infixl 40 ◌∣◌
abbrev pub ◌∣◌ : ℕ → CompletenessIssue → ℕ
unfolding issue_value
mask ∣ issue = bit_or mask (issue_value issue)

-- What `known_issue_mask` and `stack_detail_issue_mask` have in common.
abbrev pub named_detail_mask : ℕ
named_detail_mask =
    0 ∣ event_loss ∣ trace_truncated ∣ writer_error ∣ unknown_record_skipped ∣ missing_end_of_trace
    ∣ abnormal_stop ∣ stack_data_loss ∣ partially_understood_format ∣ custom_hook_install_failed

unfoldable pub known_issue_mask : ℕ
known_issue_mask =
    named_detail_mask ∣ capture_did_not_start_at_process_start ∣ preexisting_allocations_unknown

unfoldable pub lifecycle_issue_mask : ℕ
unfolding known_issue_mask bit_not issue_value
lifecycle_issue_mask = bit_and known_issue_mask (bit_not (issue_value stack_data_loss))

unfoldable pub stack_detail_issue_mask : ℕ
stack_detail_issue_mask = named_detail_mask

unfoldable pub understanding_issue_mask : ℕ
understanding_issue_mask = 0 ∣ unknown_record_skipped ∣ partially_understood_format

unfoldable pub issue_bit : CompletenessIssue → Result ℕ
unfolding issue_value known_issue_mask
issue_bit issue = do
  throw_if
      (issue_value issue == 0
        || bit_and (issue_value issue) (issue_value issue - 1) != 0
        || bit_and (issue_value issue) known_issue_mask == 0)
      (completeness_validation_error "completeness issue is not a known single-bit value")
  ok (issue_value issue)

pub data CompletenessState : Type 0 where
  complete incomplete : CompletenessState

pub data UnderstandingState : Type 0 where
  full partial : UnderstandingState

pub record CompletenessReport : Type 0 where
  pub mask : ℕ

abbrev pub from_mask : ℕ → CompletenessReport
from_mask mask = record { mask = mask }

unfoldable pub add : CompletenessReport → CompletenessIssue → Result CompletenessReport
add report issue = do bit ← issue_bit issue; ok (from_mask (bit_or report.mask bit))

unfoldable pub remove : CompletenessReport → CompletenessIssue → Result CompletenessReport
remove report issue = do bit ← issue_bit issue; ok (from_mask (bit_and report.mask (bit_not bit)))

unfoldable pub merge : CompletenessReport → CompletenessReport → CompletenessReport
merge report source = from_mask (bit_or report.mask source.mask)

unfoldable pub has : CompletenessReport → CompletenessIssue → Result Bool
has report issue = do bit ← issue_bit issue; ok (bit_and report.mask bit != 0)

unfoldable pub overall_state : CompletenessReport → CompletenessState
overall_state report = if report.mask == 0 then complete else incomplete

abbrev unknown_issues : CompletenessReport → ℕ
unknown_issues report = bit_and report.mask (bit_not known_issue_mask)

unfoldable pub lifecycle_state : CompletenessReport → CompletenessState
lifecycle_state report =
    if bit_and report.mask lifecycle_issue_mask == 0 && unknown_issues report == 0
    then complete
    else incomplete

unfoldable pub stack_detail_state : CompletenessReport → CompletenessState
stack_detail_state report =
    if bit_and report.mask stack_detail_issue_mask == 0 && unknown_issues report == 0
    then complete
    else incomplete

unfoldable pub understanding_state : CompletenessReport → UnderstandingState
understanding_state report =
    if bit_and report.mask understanding_issue_mask == 0 && unknown_issues report == 0
    then full
    else partial

-- `state == CompletenessState::kComplete`
abbrev pub is_complete : CompletenessState → Bool
is_complete complete = Bool.true
is_complete incomplete = Bool.false

unfoldable pub recommended_exit_code : CompletenessReport → ℕ
unfolding overall_state
recommended_exit_code report = if is_complete (overall_state report) then 0 else 2
