-- ===== src/Trace/Completeness/Statistics.antt =====
-- src/trace/completeness.cpp: `validate_loss_record` and `validate_statistics`.
use noleax.Prelude.{
  ℕ, ◌+◌, List, [], ◌∷◌, Bool, true, false, Option, none, some, not, ◌||◌, ltb, ◌==◌, ◌!=◌, sub_u64,
  u64_max,
}
use noleax.Prelude.Error.{Result, ok, completeness_validation_error, throw_if, ◌>>=◌, ◌>>◌}
use noleax.Prelude.Map.{contains}
use noleax.Trace.Identifiers.{Identifier, is_valid}
use Prim.Native.String.{String}
use Prim.Native.String as Text

pub data LossReason : Type 0 where
  unknown queue_full trace_full writer_error stack_capture_failed : LossReason
  rotation_limit decoder_error : LossReason
  other : ℕ → LossReason

pub data LossLocation : Type 0 where
  unknown agent_queue writer rotation decoder : LossLocation
  other : ℕ → LossLocation

pub record SequenceRange : Type 0 where
  pub begin : Identifier
  pub end : Identifier

pub record TickRange : Type 0 where
  pub begin : ℕ
  pub end : ℕ

pub record LossRecord : Type 0 where
  pub reason : LossReason
  pub location : LossLocation
  pub estimated_event_count : Option ℕ
  pub sequence_range : Option SequenceRange
  pub tick_range : Option TickRange

pub record ApiStatistics : Type 0 where
  pub api_id : ℕ
  pub observed_calls : ℕ
  pub successful_operations : ℕ
  pub failed_operations : ℕ
  pub filtered_before_queue : ℕ
  pub dropped_events : ℕ

pub record CaptureStatistics : Type 0 where
  pub observed_calls : ℕ
  pub successful_operations : ℕ
  pub failed_operations : ℕ
  pub filtered_before_queue : ℕ
  pub dropped_events : ℕ
  pub unique_stacks : ℕ
  pub reused_stacks : ℕ
  pub written_uncompressed_bytes : ℕ
  pub written_stored_bytes : ℕ
  pub per_api : List ApiStatistics

unfoldable pub is_known_loss_reason : LossReason → Bool
is_known_loss_reason LossReason.unknown = false
is_known_loss_reason (LossReason.other n) = false
is_known_loss_reason _ = true

unfoldable pub is_known_loss_location : LossLocation → Bool
is_known_loss_location LossLocation.unknown = false
is_known_loss_location (LossLocation.other n) = false
is_known_loss_location _ = true

-- `if (test) throw CompletenessValidationError{message};`
abbrev pub reject_if : Bool → String → Result (Unit {0})
reject_if test message = throw_if test (completeness_validation_error message)

abbrev is_zero_count : Option ℕ → Bool
is_zero_count none = false
is_zero_count (some count) = count == 0

abbrev is_bad_sequence_range : Option SequenceRange → Bool
is_bad_sequence_range none = false
is_bad_sequence_range (some range) =
    not (is_valid range.begin) || not (is_valid range.end) || ltb range.end range.begin

abbrev is_reversed : Option TickRange → Bool
is_reversed none = false
is_reversed (some range) = ltb range.end range.begin

unfoldable pub validate_loss_record : LossRecord → Result (Unit {0})
unfolding is_known_loss_reason is_known_loss_location
validate_loss_record loss = do
  reject_if (not (is_known_loss_reason loss.reason)) "loss reason must be specified"
  reject_if (not (is_known_loss_location loss.location)) "loss location must be specified"
  reject_if (is_zero_count loss.estimated_event_count) "known loss event count must not be zero"
  reject_if (is_bad_sequence_range loss.sequence_range) "loss sequence range is invalid"
  reject_if (is_reversed loss.tick_range) "loss tick range is reversed"

-- In the order of the arguments: observed, succeeded, failed, filtered, dropped.
unfoldable pub validate_call_counts : ℕ → ℕ → ℕ → ℕ → ℕ → String → Result (Unit {0})
validate_call_counts observed succeeded failed filtered dropped subject = do
  reject_if (ltb observed succeeded || ltb observed failed || succeeded != sub_u64 observed failed)
      (Text.◌++◌ subject " successful and failed counts must sum to observed calls")
  reject_if (ltb observed filtered || ltb (sub_u64 observed filtered) dropped)
      (Text.◌++◌ subject " filtered and dropped counts exceed observed calls")

unfoldable pub checked_add : ℕ → ℕ → Result ℕ
checked_add total value = do
  reject_if (ltb (sub_u64 u64_max value) total) "per-API statistics overflow their aggregate"
  ok (total + value)

-- The local variables of `validate_statistics` that the loop adds to.
pub record Totals : Type 0 where
  pub observed : ℕ
  pub succeeded : ℕ
  pub failed : ℕ
  pub filtered : ℕ
  pub dropped : ℕ

-- One turn of the loop, less the insertion into `seen_api_ids`.
unfoldable pub add_api : Totals → List ℕ → ApiStatistics → Result Totals
add_api totals seen_api_ids api = do
  reject_if (api.api_id == 0) "per-API statistics require a nonzero api_id"
  reject_if (contains seen_api_ids api.api_id) "per-API statistics contain a duplicate api_id"
  validate_call_counts api.observed_calls api.successful_operations api.failed_operations
      api.filtered_before_queue api.dropped_events "per-API"
  observed ← checked_add totals.observed api.observed_calls
  succeeded ← checked_add totals.succeeded api.successful_operations
  failed ← checked_add totals.failed api.failed_operations
  filtered ← checked_add totals.filtered api.filtered_before_queue
  dropped ← checked_add totals.dropped api.dropped_events
  ok (record {
    observed = observed;
    succeeded = succeeded;
    failed = failed;
    filtered = filtered;
    dropped = dropped;
  })

unfoldable pub add_apis : Totals → List ℕ → List ApiStatistics → Result Totals
add_apis totals seen_api_ids [] = ok totals
add_apis totals seen_api_ids (api ∷ apis) = do
  totals' ← add_api totals seen_api_ids api
  add_apis totals' (api.api_id ∷ seen_api_ids) apis

abbrev pub no_totals : Totals
no_totals = (record { observed = 0; succeeded = 0; failed = 0; filtered = 0; dropped = 0 })

-- `validate_statistics` from the end of its loop on.
unfoldable pub check_totals : CaptureStatistics → Totals → Result (Unit {0})
check_totals statistics totals = do
  reject_if
      (totals.observed != statistics.observed_calls
        || totals.succeeded != statistics.successful_operations
        || totals.failed != statistics.failed_operations
        || totals.filtered != statistics.filtered_before_queue
        || totals.dropped != statistics.dropped_events)
      "per-API statistics do not match their aggregate"
  let recorded_events =
      sub_u64 (sub_u64 statistics.observed_calls statistics.filtered_before_queue)
        statistics.dropped_events
  reject_if
      (ltb recorded_events statistics.unique_stacks
        || ltb (sub_u64 recorded_events statistics.unique_stacks) statistics.reused_stacks)
      "stack statistics exceed recorded event count"

unfoldable pub validate_statistics : CaptureStatistics → Result (Unit {0})
validate_statistics statistics = do
  validate_call_counts statistics.observed_calls statistics.successful_operations
      statistics.failed_operations statistics.filtered_before_queue statistics.dropped_events
      "aggregate"
  totals ← add_apis no_totals [] statistics.per_api
  check_totals statistics totals
