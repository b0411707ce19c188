-- ===== src/Trace/RecordCodec/Losses.antt =====
-- src/trace/record_codec.cpp: the records of losses.
pub mod RoundTrip
use noleax.Prelude.{
  ℕ, Bool, true, false, ◌&&◌, not, ◌==◌, ◌!=◌, Option, none, some, if◌then◌else◌, [],
}
use noleax.Prelude.Error.{Result, ok, err, record_codec_error}
use noleax.Trace.Bytes.{Bytes, Append, ◌▷◌, append_u8, append_u64, append_zeros}
use noleax.Trace.PayloadReader.{
  Reader, ◌>>=◌, ◌>>◌, return, attempt, read_u8, read_u64, expect_zeros, read_as, fail_if,
}
use noleax.Trace.RecordCodec.{record_version, catch_completeness, whole, after}
use noleax.Trace.WireFormat.{append_record}
use noleax.Trace.Completeness.Statistics.{
  LossRecord, SequenceRange, TickRange, validate_loss_record,
}
use noleax.Trace.RecordCodec.Enumerations.{
  loss_reason_byte, decode_loss_reason, loss_location_byte, decode_loss_location,
}
use Prim.Native.Nat.{bit_and, bit_or}
use Prim.Native.String.{String}

-- The presence flags of a loss record: a count, a range of sequences, a range of ticks.
abbrev pub has_value : {A : Type 0} → Option A → Bool
has_value none = false
has_value (some value) = true

abbrev pub presence_of : Bool → Bool → Bool → ℕ
presence_of counted in_sequence in_time =
    bit_or (bit_or (bit_or 0 (if counted then 1 else 0)) (if in_sequence then 2 else 0))
      (if in_time then 4 else 0)

unfoldable pub loss_presence : LossRecord → ℕ
loss_presence loss =
    presence_of (has_value loss.estimated_event_count) (has_value loss.sequence_range)
      (has_value loss.tick_range)

abbrev pub no_sequence_range : SequenceRange
no_sequence_range = (record { begin = 0; end = 0 })

abbrev pub no_tick_range : TickRange
no_tick_range = (record { begin = 0; end = 0 })

-- `value_or`, and its like for the two ends of a range.
abbrev pub value_or : {A : Type 0} → Option A → A → A
value_or none other = other
value_or (some value) other = value

unfoldable pub append_loss : LossRecord → Append
append_loss loss =
    append_u8 (loss_reason_byte loss.reason)
    ▷ append_u8 (loss_location_byte loss.location)
    ▷ append_u8 (loss_presence loss)
    ▷ append_zeros 5
    ▷ append_u64 (value_or loss.estimated_event_count 0)
    ▷ append_u64 (SequenceRange.begin (value_or loss.sequence_range no_sequence_range))
    ▷ append_u64 (SequenceRange.end (value_or loss.sequence_range no_sequence_range))
    ▷ append_u64 (TickRange.begin (value_or loss.tick_range no_tick_range))
    ▷ append_u64 (TickRange.end (value_or loss.tick_range no_tick_range))

-- The test of one presence flag: the value where it is set, and a refusal where it is not set and
-- the fields are not 0.
abbrev pub present : {A : Type 0} → Bool → Bool → String → A → Reader (Option A)
present true absent message value = return (some value)
present false false message value = attempt (err (record_codec_error message))
present false true message value = return none

unfoldable pub read_loss : Reader LossRecord
read_loss = do
  reason ← read_as decode_loss_reason
  location ← read_as decode_loss_location
  presence ← read_u8
  fail_if (bit_and presence 0xfffffff8 != 0) "loss presence flags are not supported"
  expect_zeros 5
  count ← read_u64
  sequence_begin ← read_u64
  sequence_end ← read_u64
  tick_begin ← read_u64
  tick_end ← read_u64
  estimated_event_count ←
      present (bit_and presence 1 != 0) (count == 0) "absent loss count must be zero" count
  sequence_range ←
      present (bit_and presence 2 != 0) (sequence_begin == 0 && sequence_end == 0)
        "absent loss sequence range must be zero"
        (record { begin = sequence_begin; end = sequence_end })
  tick_range ←
      present (bit_and presence 4 != 0) (tick_begin == 0 && tick_end == 0)
        "absent loss tick range must be zero" (record { begin = tick_begin; end = tick_end })
  return (record {
    reason = reason;
    location = location;
    estimated_event_count = estimated_event_count;
    sequence_range = sequence_range;
    tick_range = tick_range;
  })

unfoldable pub append_loss_record : LossRecord → ℕ → Bytes → Result Bytes
append_loss_record loss maximum_record_size chunk_payload =
    after (validate_loss_record loss)
      (append_record chunk_payload 10 record_version (append_loss loss []) maximum_record_size)

abbrev pub whole_loss : Reader LossRecord
whole_loss = whole catch_completeness "invalid Loss record: " ok validate_loss_record read_loss
