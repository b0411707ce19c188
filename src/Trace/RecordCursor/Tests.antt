-- ===== src/Trace/RecordCursor/Tests.antt =====
-- A chunk with a record, and what the cursor makes of it.
use noleax.Prelude.{ℕ, ◌≤◌, ◌<◌, ◌+◌, ◌^◌, [], ◌∷◌, ◌++◌, length, some, ◌≡◌, ◌≢◌, ◌↔◌, refl, arith}
use noleax.Prelude.Error.{ok}
use noleax.Trace.Bytes.{Bytes}
use noleax.Trace.WireFormat.{append_record, append_frame}
use noleax.Trace.RecordCursor.{next, done, next_record, read_at, bytes_from, subspan}
use noleax.Trace.PayloadReader.{read_bytes, split_at}
use noleax.Trace.RecordCursor.Framing.{cursor_at, view_of}
use noleax.Trace.RecordCursor.Records.{next-append_record, append_record_lem}
use noleax.Trace.RecordCursor.Progress.{Progress, next-Progress}

abbrev earlier : Bytes
earlier = 7 ∷ 7 ∷ []

abbrev payload : Bytes
payload = 1 ∷ 2 ∷ 3 ∷ []

next-append_record_example :
    (chunk' : Bytes) × (append_record earlier 5 1 payload 64 ≡ ok chunk')
    × (next (cursor_at (chunk' ++ 9 ∷ []) 2 64)
        ≡ ok (some (view_of 5 1 payload), cursor_at (chunk' ++ 9 ∷ []) (length chunk') 64))
next-append_record_example =
    next-append_record earlier payload (9 ∷ []) 5 1 64 (λ e. cc) (omega arith) (λ e. cc)
      (omega arith)
      (record { in_record = omega arith; in_word = omega arith; in_chunk = omega arith })

append_record_lem_example :
    (append_record earlier 5 1 payload 64 ≡ ok (append_frame 5 1 payload earlier)) ↔ (
      (◌≢◌ {A = ℕ} 5 0)
      × (◌≢◌ {A = ℕ} 1 0)
      × (length payload + 8 ≤ 64)
      × (length payload + 8 < 2 ^ 32)
      × (length earlier + length payload + 8 < 2 ^ 64))
append_record_lem_example = append_record_lem earlier payload 5 1 64

-- A record of one byte, 5, of type 2 and version 1, and a byte behind it.
abbrev chunk : Bytes
chunk = 2 ∷ 0 ∷ 1 ∷ 0 ∷ 9 ∷ 0 ∷ 0 ∷ 0 ∷ 5 ∷ 8 ∷ []

first_record : next (cursor_at chunk 0 64) ≡ ok (some (view_of 2 1 (5 ∷ [])), cursor_at chunk 9 64)
unfolding next done next_record read_at read_bytes bytes_from subspan split_at
first_record = refl

next-Progress_example :
    Progress (cursor_at chunk 0 64) (view_of 2 1 (5 ∷ [])) (cursor_at chunk 9 64)
next-Progress_example =
    next-Progress (cursor_at chunk 0 64) (cursor_at chunk 9 64) (view_of 2 1 (5 ∷ [])) (omega arith)
      first_record
