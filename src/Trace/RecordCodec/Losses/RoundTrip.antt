-- ===== src/Trace/RecordCodec/Losses/RoundTrip.antt =====
-- src/trace/record_codec.cpp: the records of losses are restored.
use noleax.Prelude.{
  ℕ, ◌^◌, ◌<◌, Bool, true, false, ◌&&◌, ◌==◌, ◌!=◌, Option, none, some, ◌≡◌, refl, ap, sym, arith,
  IsU64,
}
use noleax.Prelude.Error.{ok}
use noleax.Trace.Bytes.{Bytes}
use noleax.Trace.PayloadReader.{return}
use noleax.Trace.PayloadReader.Codes.{
  Codes, codes, Codes-then, fail_if_lem, Codes-step, bind_lem, Codes-resize,
}
use noleax.Trace.PayloadReader.Codes.Numbers.{Codes-u8, Codes-u64, Codes-zeros}
use noleax.Trace.RecordCodec.{catch_completeness, mapped}
use noleax.Trace.RecordCodec.Restores.{Restores, restores, run-whole}
use noleax.Trace.RecordCursor.Records.{Fits}
use noleax.Trace.Completeness.Statistics.{
  LossRecord, SequenceRange, TickRange, is_known_loss_reason, is_known_loss_location,
  validate_loss_record,
}
use noleax.Trace.RecordCodec.Enumerations.Named.{Codes-loss_reason, Codes-loss_location}
use noleax.Trace.RecordCodec.Losses.{
  has_value, presence_of, loss_presence, no_sequence_range, no_tick_range, value_or, append_loss,
  present, read_loss, append_loss_record,
}
use noleax.Trace.RecordCodec.Events.{
  decode_event_record_type, decode_event_chunk_payload, decode_event_chunk_record, loss_record,
}
use Prim.Native.Nat.{bit_and}
use Prim.Native.String.{String}

-- The fields of a loss record are values of their types, and its enumerations have names.
pub record LossWidths (loss : LossRecord) : Type 0 where
  pub reason : is_known_loss_reason loss.reason ≡ true
  pub location : is_known_loss_location loss.location ≡ true
  pub count : IsU64 (value_or loss.estimated_event_count 0)
  pub sequence_begin : IsU64 (SequenceRange.begin (value_or loss.sequence_range no_sequence_range))
  pub sequence_end : IsU64 (SequenceRange.end (value_or loss.sequence_range no_sequence_range))
  pub tick_begin : IsU64 (TickRange.begin (value_or loss.tick_range no_tick_range))
  pub tick_end : IsU64 (TickRange.end (value_or loss.tick_range no_tick_range))

-- What the presence flags say.
flags_lem :
    (a b c : Bool)
    → (presence_of a b c < 2 ^ 8)
      × ((bit_and (presence_of a b c) 0xfffffff8 != 0) ≡ false)
      × ((bit_and (presence_of a b c) 1 != 0) ≡ a)
      × ((bit_and (presence_of a b c) 2 != 0) ≡ b)
      × ((bit_and (presence_of a b c) 4 != 0) ≡ c)
flags_lem true true true = (omega arith, refl, refl, refl, refl)
flags_lem true true false = (omega arith, refl, refl, refl, refl)
flags_lem true false true = (omega arith, refl, refl, refl, refl)
flags_lem true false false = (omega arith, refl, refl, refl, refl)
flags_lem false true true = (omega arith, refl, refl, refl, refl)
flags_lem false true false = (omega arith, refl, refl, refl, refl)
flags_lem false false true = (omega arith, refl, refl, refl, refl)
flags_lem false false false = (omega arith, refl, refl, refl, refl)

present_lem :
    {A : Type 0} (o : Option A) (flag absent : Bool) (message : String) (value : A) (left : Bytes)
    → flag ≡ has_value o
    → value_or o value ≡ value
    → (has_value o ≡ false → absent ≡ true)
    → present flag absent message value left ≡ ok (o, left)
unfolding return
present_lem none flag absent message value left f v e = rw (f, e refl) refl
present_lem (some w) flag absent message value left f v e = rw (f, sym v) refl

range_absent :
    (o : Option SequenceRange)
    → has_value o ≡ false
    → (SequenceRange.begin (value_or o no_sequence_range) == 0
        && SequenceRange.end (value_or o no_sequence_range) == 0)
      ≡ true
range_absent none h = refl
range_absent (some range) h = cc

ticks_absent :
    (o : Option TickRange)
    → has_value o ≡ false
    → (TickRange.begin (value_or o no_tick_range) == 0
        && TickRange.end (value_or o no_tick_range) == 0)
      ≡ true
ticks_absent none h = refl
ticks_absent (some range) h = cc

count_absent : (o : Option ℕ) → has_value o ≡ false → (value_or o 0 == 0) ≡ true
count_absent none h = refl
count_absent (some n) h = cc

value_or-same : {A : Type 0} (o : Option A) (d : A) → value_or o (value_or o d) ≡ value_or o d
value_or-same none d = refl
value_or-same (some a) d = refl

Codes-loss : (loss : LossRecord) → LossWidths loss → Codes (append_loss loss) read_loss loss 48
unfolding append_loss read_loss return loss_presence
Codes-loss loss widths =
    let flags =
      flags_lem (has_value loss.estimated_event_count) (has_value loss.sequence_range)
        (has_value loss.tick_range) in
    Codes-resize refl (
      codes _ (Codes-loss_reason loss.reason widths.reason) (
        codes _ (Codes-loss_location loss.location widths.location) (
          codes _ (Codes-u8 (loss_presence loss) flags.0) (
            Codes-step _ (λ left. fail_if_lem _ _ left flags.1)
              (codes _ (Codes-zeros 5) (
                codes _ (Codes-u64 _ widths.count) (
                  codes _ (Codes-u64 _ widths.sequence_begin) (
                    codes _ (Codes-u64 _ widths.sequence_end) (
                      codes _ (Codes-u64 _ widths.tick_begin) (
                        Codes-then _ (Codes-u64 _ widths.tick_end) (λ left.
                          bind_lem _ _
                            (present_lem loss.estimated_event_count _ _ _ _ left flags.2
                              (value_or-same loss.estimated_event_count 0)
                              (count_absent loss.estimated_event_count))
                            (bind_lem _ _
                              (present_lem loss.sequence_range _ _ _ _ left flags.3
                                (value_or-same loss.sequence_range no_sequence_range)
                                (range_absent loss.sequence_range))
                              (bind_lem _ _
                                (present_lem loss.tick_range _ _ _ _ left flags.4
                                  (value_or-same loss.tick_range no_tick_range)
                                  (ticks_absent loss.tick_range))
                                refl)))))))))))))

-- A loss record that is valid, whose fields fit their types, whose enumerations have names and
-- that has room in the chunk, is appended as a record that the cursor finds and from which the same
-- loss is decoded.
pub append_loss_record-Restores :
    (loss : LossRecord) (maximum : ℕ) (chunk rest : Bytes)
    → validate_loss_record loss ≡ ok tt
    → LossWidths loss
    → Fits chunk 48 maximum
    → Restores
        (append_loss_record loss maximum)
        decode_event_chunk_record
        (loss_record loss)
        maximum
        chunk
        rest
unfolding append_loss_record decode_event_chunk_record decode_event_chunk_payload
    decode_event_record_type
append_loss_record-Restores loss maximum chunk rest valid widths fits =
    let c = Codes-loss loss widths in
    restores c (append_loss_record loss maximum) decode_event_chunk_record (loss_record loss) 10
      maximum chunk rest (rw valid refl)
      (ap (λ r. mapped some (mapped loss_record r))
        (run-whole c catch_completeness "invalid Loss record: " ok validate_loss_record loss refl
          valid))
      (λ e. cc) (omega arith) fits
