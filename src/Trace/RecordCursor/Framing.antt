-- ===== src/Trace/RecordCursor/Framing.antt =====
-- src/trace/wire_format.cpp and src/trace/trace_reader.cpp: what is framed is found again.
use noleax.Prelude.{
  ℕ, ◌+◌, ◌-◌, ◌*◌, ◌^◌, ◌≤◌, ◌<◌, [], ◌∷◌, ◌++◌, length, length-append, some, ◌≡◌, ◌≢◌, refl, ap,
  sym, ◌∙◌, arith,
}
use noleax.Prelude.Error.{ok}
use noleax.Trace.Bytes.{Bytes, little_endian, length-little_endian}
use noleax.Trace.PayloadReader.{read_bytes, split_at}
use noleax.Trace.PayloadReader.Codes.Numbers.{read_bytes-little_endian, split_at-append}
use noleax.Trace.RecordCursor.{
  RecordView, RecordCursor, done, bytes_from, read_at, subspan, next_record, next,
}
use mathlib.Core.List.{append_assoc}

pub bytes_from-append : (a b : Bytes) → bytes_from (length a) (a ++ b) ≡ b
unfolding bytes_from
bytes_from-append [] b = refl
bytes_from-append (byte ∷ a) b = bytes_from-append a b

pub read_at-append :
    (count n offset : ℕ) (a left : Bytes)
    → n < 2 ^ (count * 8)
    → offset ≡ length a
    → read_at count (a ++ (little_endian count n ++ left)) offset ≡ n
unfolding read_at
read_at-append count n offset a left h e = rw e (
    ap (λ b. (read_bytes count 0 0 b).0) (bytes_from-append a (little_endian count n ++ left))
    ∙ ap (λ r. r.0) (read_bytes-little_endian count 0 0 n left (omega arith) h)
    ∙ omega arith)

subspan-append :
    (count offset : ℕ) (a b left : Bytes)
    → offset ≡ length a
    → count ≡ length b
    → subspan (a ++ (b ++ left)) offset count ≡ b
unfolding subspan
subspan-append count offset a b left e f =
    rw (e, f)
      (ap (λ l. (split_at (length b) l).0) (bytes_from-append a (b ++ left))
        ∙ ap (λ r. r.0) (split_at-append b left))

module _ (chunk payload rest : Bytes) (type version size : ℕ) where
  -- The bytes of a record between those of a chunk before and after it.
  abbrev pub framed : Bytes
  framed =
      chunk
      ++ (little_endian 2 type
          ++ (little_endian 2 version ++ (little_endian 4 size ++ (payload ++ rest))))

  pub length-framed : length framed ≡ length chunk + 8 + length payload + length rest
  length-framed = omega (
    arith,
    length-append chunk (
        little_endian 2 type
        ++ (little_endian 2 version ++ (little_endian 4 size ++ (payload ++ rest)))),
    length-append (little_endian 2 type)
        (little_endian 2 version ++ (little_endian 4 size ++ (payload ++ rest))),
    length-append (little_endian 2 version) (little_endian 4 size ++ (payload ++ rest)),
    length-append (little_endian 4 size) (payload ++ rest),
    length-append payload rest,
    length-little_endian 2 type,
    length-little_endian 2 version,
    length-little_endian 4 size,
  )

  read_type : type < 2 ^ 16 → read_at 2 framed (length chunk) ≡ type
  read_type h = read_at-append 2 type (length chunk) chunk _ h refl

  -- The bytes before the version, before the size and before the payload.
  abbrev to_version : Bytes
  to_version = chunk ++ little_endian 2 type

  abbrev to_size : Bytes
  to_size = to_version ++ little_endian 2 version

  abbrev to_payload : Bytes
  to_payload = to_size ++ little_endian 4 size

  framed-to_version :
      framed
      ≡ to_version ++ (little_endian 2 version ++ (little_endian 4 size ++ (payload ++ rest)))
  framed-to_version = sym (
      append_assoc chunk (little_endian 2 type)
        (little_endian 2 version ++ (little_endian 4 size ++ (payload ++ rest))))

  framed-to_size : framed ≡ to_size ++ (little_endian 4 size ++ (payload ++ rest))
  framed-to_size =
      framed-to_version
      ∙ sym (
          append_assoc to_version (little_endian 2 version)
            (little_endian 4 size ++ (payload ++ rest)))

  framed-to_payload : framed ≡ to_payload ++ (payload ++ rest)
  framed-to_payload =
      framed-to_size ∙ sym (append_assoc to_size (little_endian 4 size) (payload ++ rest))

  length-to_version : length to_version ≡ length chunk + 2
  length-to_version =
      omega (arith, length-append chunk (little_endian 2 type), length-little_endian 2 type)

  length-to_size : length to_size ≡ length chunk + 4
  length-to_size = omega (
    arith,
    length-to_version,
    length-append to_version (little_endian 2 version),
    length-little_endian 2 version,
  )

  length-to_payload : length to_payload ≡ length chunk + 8
  length-to_payload = omega (
    arith,
    length-to_size,
    length-append to_size (little_endian 4 size),
    length-little_endian 4 size,
  )

  read_version : version < 2 ^ 16 → read_at 2 framed (length chunk + 2) ≡ version
  read_version h =
      rw framed-to_version
        (read_at-append 2 version (length chunk + 2) to_version _ h (sym length-to_version))

  read_size : size < 2 ^ 32 → read_at 4 framed (length chunk + 4) ≡ size
  read_size h =
      rw framed-to_size (read_at-append 4 size (length chunk + 4) to_size _ h (sym length-to_size))

  framed_payload :
      size ≡ length payload + 8 → subspan framed (length chunk + 8) (size - 8) ≡ payload
  framed_payload e = rw framed-to_payload (
      subspan-append (size - 8) (length chunk + 8) to_payload payload rest (sym length-to_payload)
        (omega (arith, e)))

-- The view of a record.
abbrev pub view_of : ℕ → ℕ → Bytes → RecordView
view_of type version payload = (record { record_type = type; version = version; payload = payload })

abbrev pub cursor_at : Bytes → ℕ → ℕ → RecordCursor
cursor_at chunk_payload offset maximum = (record {
  chunk_payload = chunk_payload;
  offset = offset;
  maximum_record_size = maximum;
})

next_record_lem :
    (cursor : RecordCursor) (remaining type version size : ℕ)
    → type ≢ 0
    → version ≢ 0
    → 8 ≤ size
    → size ≤ cursor.maximum_record_size
    → size ≤ remaining
    → next_record cursor remaining type version size
      ≡ ok (
        some (view_of type version (subspan cursor.chunk_payload (cursor.offset + 8) (size - 8))),
        cursor_at cursor.chunk_payload (cursor.offset + size) cursor.maximum_record_size,
      )
unfolding next_record
next_record_lem cursor remaining type version size h1 h2 h3 h4 h5 = ground arith

next_lem :
    (cursor : RecordCursor)
    → cursor.offset + 8 ≤ length cursor.chunk_payload
    → next cursor
      ≡ next_record cursor
          (length cursor.chunk_payload - cursor.offset)
          (read_at 2 cursor.chunk_payload cursor.offset)
          (read_at 2 cursor.chunk_payload (cursor.offset + 2))
          (read_at 4 cursor.chunk_payload (cursor.offset + 4))
unfolding next done
next_lem cursor h = ground arith

pub next-framed :
    (chunk payload rest : Bytes) (type version size maximum : ℕ)
    → type ≢ 0
    → type < 2 ^ 16
    → version ≢ 0
    → version < 2 ^ 16
    → size < 2 ^ 32
    → size ≡ length payload + 8
    → size ≤ maximum
    → next (cursor_at (framed chunk payload rest type version size) (length chunk) maximum)
      ≡ ok (
        some (view_of type version payload),
        cursor_at (framed chunk payload rest type version size) (length chunk + size) maximum,
      )
next-framed chunk payload rest type version size maximum t0 t v0 v s e m =
    let cursor = cursor_at (framed chunk payload rest type version size) (length chunk) maximum in
    next_lem cursor (omega (arith, length-framed chunk payload rest type version size))
    ∙ (rw
        (
          read_type chunk payload rest type version size t,
          read_version chunk payload rest type version size v,
          read_size chunk payload rest type version size s,
        )
        (next_record_lem cursor
          (length (framed chunk payload rest type version size) - length chunk) type version size t0
          v0 (omega arith) m (omega (arith, length-framed chunk payload rest type version size))))
    ∙ ap
        (λ p. ok (
          some (view_of type version p),
          cursor_at (framed chunk payload rest type version size) (length chunk + size) maximum,
        ))
        (framed_payload chunk payload rest type version size e)
