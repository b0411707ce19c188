-- ===== src/Trace/PayloadReader.antt =====
-- src/trace/record_codec.cpp: `PayloadReader`, whose state is the bytes from its offset on.
pub mod Codes
use noleax.Prelude.{
  ℕ, zero, suc, ◌+◌, ◌*◌, ◌^◌, List, [], ◌∷◌, Bool, true, false, ltb, ◌!=◌, length,
}
use noleax.Prelude.Error.{Error, Result, ok, err, record_codec_error}
use noleax.Trace.Bytes.{Bytes}
use Prim.Native.Nat.{bit_or}
use Prim.Native.String.{String}

-- A call of the reader: a value and the bytes that are left, or an exception.
abbrev pub Reader : Type 0 → Type 0
Reader A = Bytes → Result (A × Bytes)

abbrev and_then : {A B : Type 0} → Result (A × Bytes) → (A → Reader B) → Result (B × Bytes)
and_then (ok (value, left)) next = next value left
and_then (err thrown) next = err thrown

infixl 5 ◌>>=◌ ◌>>◌
unfoldable pub ◌>>=◌ : {A B : Type 0} → Reader A → (A → Reader B) → Reader B
(first >>= next) payload = and_then (first payload) next

abbrev pub ◌>>◌ : {B : Type 0} → Reader (Unit {0}) → Reader B → Reader B
first >> next = first >>= λ done. next

unfoldable pub return : {A : Type 0} → A → Reader A
return value payload = ok (value, payload)

-- A call that reads nothing, and may throw.
unfoldable pub attempt : {A : Type 0} → Result A → Reader A
attempt (ok value) payload = ok (value, payload)
attempt (err thrown) payload = err thrown

abbrev pub truncated : {A : Type 0} → Result A
truncated = err (record_codec_error "record payload is truncated")

-- `require(count)`, and what follows it.
unfoldable pub required : {A : Type 0} → ℕ → Bytes → Result A → Result A
required count payload rest = elim (ltb (length payload) count) [ true ↦ truncated | false ↦ rest ]

-- The loop over the bytes of a number: how many are to come, the index, and the value so far. The
-- second clause is not met after `require`.
unfoldable pub read_bytes : ℕ → ℕ → ℕ → Bytes → ℕ × Bytes
read_bytes zero index value payload = (value, payload)
read_bytes (suc count) index value [] = (value, [])
read_bytes (suc count) index value (byte ∷ payload) =
    read_bytes count (suc index) (bit_or value (byte * 2 ^ (index * 8))) payload

unfoldable pub read_number : ℕ → Reader ℕ
read_number count payload = required count payload (ok (read_bytes count 0 0 payload))

unfoldable pub read_u8 : Reader ℕ
read_u8 payload = read_number 1 payload

unfoldable pub read_u16 : Reader ℕ
read_u16 payload = read_number 2 payload

unfoldable pub read_u32 : Reader ℕ
read_u32 payload = read_number 4 payload

unfoldable pub read_u64 : Reader ℕ
read_u64 payload = read_number 8 payload

-- The word with the bits of the signed number.
unfoldable pub read_i32 : Reader ℕ
read_i32 payload = read_u32 payload

-- The bytes up to a count, and those from there on.
unfoldable pub split_at : ℕ → Bytes → Bytes × Bytes
split_at zero payload = ([], payload)
split_at (suc count) [] = ([], [])
split_at (suc count) (byte ∷ payload) =
    let parts = split_at count payload in (byte ∷ parts.0, parts.1)

unfoldable pub read_string : ℕ → Reader Bytes
read_string size payload = required size payload (ok (split_at size payload))

unfoldable pub read_guid : Reader Bytes
read_guid payload = required 16 payload (ok (split_at 16 payload))

unfoldable pub skip_zeros : ℕ → Reader (Unit {0})
skip_zeros zero payload = ok (tt, payload)
skip_zeros (suc count) [] = ok (tt, [])
skip_zeros (suc count) (byte ∷ payload) = elim (byte != 0) [
  | true ↦ err (record_codec_error "record reserved bytes must be zero")
  | false ↦ skip_zeros count payload
]

unfoldable pub expect_zeros : ℕ → Reader (Unit {0})
expect_zeros count payload = required count payload (skip_zeros count payload)

unfoldable pub expect_done : Reader (Unit {0})
expect_done [] = ok (tt, [])
expect_done (byte ∷ payload) = err (record_codec_error "record payload has trailing bytes")

-- The value that a reader gives for a whole payload.
unfoldable pub run : {A : Type 0} → Reader A → Bytes → Result A
run reader payload = elim (reader payload) [ ok (value, left) ↦ ok value | err thrown ↦ err thrown ]

-- `if (test) throw RecordCodecError{message};`
unfoldable pub fail_if : Bool → String → Reader (Unit {0})
fail_if true message payload = err (record_codec_error message)
fail_if false message payload = ok (tt, payload)

-- `decode(reader.read_u8())`
unfoldable pub read_as : {A : Type 0} → (ℕ → Result A) → Reader A
read_as decode = read_u8 >>= λ byte. attempt (decode byte)

abbrev pub decode_bool_of : String → ℕ → Result Bool
decode_bool_of message byte = elim (ltb 1 byte) [
  | true ↦ err (record_codec_error message)
  | false ↦ ok (byte != 0)
]

unfoldable pub decode_bool : String → Reader Bool
decode_bool message = read_as (decode_bool_of message)

-- `for (index = 0; index < count; ++index) list.push_back(<an element that is read>);`
unfoldable pub read_each : {A : Type 0} → Reader A → ℕ → Reader (List A)
read_each reader zero = return []
read_each reader (suc count) = do
  value ← reader
  values ← read_each reader count
  return (value ∷ values)
