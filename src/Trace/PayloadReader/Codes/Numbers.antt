-- ===== src/Trace/PayloadReader/Codes/Numbers.antt =====
-- src/trace/record_codec.cpp: each number, string and run of zeros is read as it was appended.
use noleax.Trace.PayloadReader.Codes.{Codes}
use noleax.Prelude.{
  Bool, true, false, if◌then◌else◌, ℕ, zero, suc, ◌+◌, ◌*◌, ◌/◌, ◌%◌, ◌^◌, ◌<◌, [], ◌∷◌, ◌++◌,
  length, length-append, ◌≡◌, refl, ap, sym, ◌∙◌, arith, IsU64,
}
use noleax.Prelude.Error.{Result, ok}
use noleax.Prelude.Shifts.{bit_or_high}
use noleax.Trace.Bytes.{
  append_i32, Bytes, ◌▷◌, append_u8, append_u16, append_u32, append_u64, append_i32, append_zeros,
  append_string_bytes, zeros, little_endian, length-little_endian, length-zeros,
  append_u16-little_endian, append_u32-little_endian, append_u64-little_endian, byte_up,
}
use noleax.Trace.PayloadReader.{
  read_i32, read_guid, decode_bool, decode_bool_of, ◌>>=◌, attempt, required, read_bytes,
  read_number, read_u8, read_u16, read_u32, read_u64, read_i32, split_at, read_string, read_guid,
  skip_zeros, expect_zeros, read_as,
}
use Prim.Native.String.{String}
use mathlib.Core.List.{append_assoc}
use native.Mathlib.Nat.{div-add-mod}

joined : (v n p q : ℕ) → q ≡ p * 256 → v + n % 256 * p + n / 256 * q ≡ v + n * p
joined v n p q e = rw e (omega (arith, ap (λ (t : ℕ). t * p) (div-add-mod n 256)))

part_lt : (v n p q : ℕ) → q ≡ p * 256 → v < p → v + n % 256 * p < q
part_lt v n p q e h = grind (arith, e, h)

next_pow : (index : ℕ) → 2 ^ (suc index * 8) ≡ 2 ^ (index * 8) * 256
next_pow index =
    let e : suc index * 8 ≡ index * 8 + 8 = omega arith in ap (λ k. 2 ^ k) e ∙ byte_up (index * 8)

pub read_bytes-little_endian :
    (count index value n : ℕ) (left : Bytes)
    → value < 2 ^ (index * 8)
    → n < 2 ^ (count * 8)
    → read_bytes count index value (little_endian count n ++ left)
      ≡ (value + n * 2 ^ (index * 8), left)
unfolding read_bytes little_endian
read_bytes-little_endian zero index value n left hv hn = ap (λ v. (v, left)) (grind (arith, hn))
read_bytes-little_endian (suc count) index value n left hv hn =
    rw (bit_or_high (index * 8) value (n % 256) hv) (
      read_bytes-little_endian count (suc index) (value + n % 256 * 2 ^ (index * 8)) (n / 256) left
        (part_lt value n (2 ^ (index * 8)) (2 ^ (suc index * 8)) (next_pow index) hv)
        (omega (arith, hn, next_pow count))
      ∙ ap (λ v. (v, left))
          (joined value n (2 ^ (index * 8)) (2 ^ (suc index * 8)) (next_pow index)))

required_lem :
    {A : Type 0} (bytes left : Bytes) (n : ℕ) (rest : Result A)
    → length bytes ≡ n
    → required n (bytes ++ left) rest ≡ rest
unfolding required
required_lem bytes left n rest e = ground (arith, length-append bytes left, e)

read_number-little_endian :
    (count n : ℕ) (left : Bytes)
    → n < 2 ^ (count * 8)
    → read_number count (little_endian count n ++ left) ≡ ok (n, left)
unfolding read_number
read_number-little_endian count n left h =
    required_lem (little_endian count n) left count _ (length-little_endian count n)
    ∙ ap ok (read_bytes-little_endian count 0 0 n left (omega arith) h)
    ∙ ap (λ v. ok (v, left)) (omega arith)

pub Codes-u8 : (n : ℕ) → n < 2 ^ 8 → Codes (append_u8 n) read_u8 n 1
unfolding append_u8 read_u8 little_endian
Codes-u8 n h = record {
  bytes = little_endian 1 n;
  appends = λ output. refl;
  reads = λ left. read_number-little_endian 1 n left h;
  sized = refl;
}

pub Codes-u16 : (n : ℕ) → n < 2 ^ 16 → Codes (append_u16 n) read_u16 n 2
unfolding read_u16
Codes-u16 n h = record {
  bytes = little_endian 2 n;
  appends = append_u16-little_endian n;
  reads = λ left. read_number-little_endian 2 n left h;
  sized = length-little_endian 2 n;
}

pub Codes-u32 : (n : ℕ) → n < 2 ^ 32 → Codes (append_u32 n) read_u32 n 4
unfolding read_u32
Codes-u32 n h = record {
  bytes = little_endian 4 n;
  appends = append_u32-little_endian n;
  reads = λ left. read_number-little_endian 4 n left h;
  sized = length-little_endian 4 n;
}

pub Codes-u64 : (n : ℕ) → IsU64 n → Codes (append_u64 n) read_u64 n 8
unfolding read_u64
Codes-u64 n h = record {
  bytes = little_endian 8 n;
  appends = append_u64-little_endian n;
  reads = λ left. read_number-little_endian 8 n left h;
  sized = length-little_endian 8 n;
}

skip_zeros-zeros :
    (count : ℕ) (left : Bytes) → skip_zeros count (zeros count ++ left) ≡ ok (tt, left)
unfolding skip_zeros zeros
skip_zeros-zeros zero left = refl
skip_zeros-zeros (suc count) left = skip_zeros-zeros count left

pub Codes-zeros : (count : ℕ) → Codes (append_zeros count) (expect_zeros count) tt count
unfolding append_zeros expect_zeros
Codes-zeros count = record {
  bytes = zeros count;
  appends = λ output. refl;
  reads = λ left.
      required_lem (zeros count) left count _ (length-zeros count) ∙ skip_zeros-zeros count left;
  sized = length-zeros count;
}

-- Zeros that are appended as a number of 16 and of 32 bits.
pub Codes-u16_zeros : Codes (append_u16 0) (expect_zeros 2) tt 2
unfolding append_u16 append_u8 expect_zeros zeros
Codes-u16_zeros = record {
  bytes = 0 ∷ 0 ∷ [];
  appends = λ output. append_assoc output (0 ∷ []) (0 ∷ []);
  reads = λ left. required_lem (zeros 2) left 2 _ refl ∙ skip_zeros-zeros 2 left;
  sized = refl;
}

pub Codes-u32_zeros : Codes (append_u32 0) (expect_zeros 4) tt 4
unfolding expect_zeros little_endian zeros
Codes-u32_zeros = record {
  bytes = 0 ∷ 0 ∷ 0 ∷ 0 ∷ [];
  appends = append_u32-little_endian 0;
  reads = λ left. required_lem (zeros 4) left 4 _ refl ∙ skip_zeros-zeros 4 left;
  sized = refl;
}

pub split_at-append : (value left : Bytes) → split_at (length value) (value ++ left) ≡ (value, left)
unfolding split_at
split_at-append [] left = refl
split_at-append (byte ∷ value) left = rw (split_at-append value left) refl

pub Codes-string :
    (value : Bytes) (size : ℕ)
    → length value ≡ size
    → Codes (append_string_bytes value) (read_string size) value size
unfolding append_string_bytes read_string
Codes-string value size e = record {
  bytes = value;
  appends = λ output. refl;
  reads = λ left.
      required_lem value left size _ e
      ∙ ap ok (ap (λ n. split_at n (value ++ left)) (sym e) ∙ split_at-append value left);
  sized = e;
}

pub Codes-as :
    {A : Type 0} (decode : ℕ → Result A) (n : ℕ) (a : A)
    → n < 2 ^ 8
    → decode n ≡ ok a
    → Codes (append_u8 n) (read_as decode) a 1
unfolding read_as attempt ◌>>=◌
Codes-as decode n a h e =
    let c = Codes-u8 n h in
    record {
      bytes = c.bytes;
      appends = c.appends;
      reads = λ left. rw (c.reads left, e) refl;
      sized = c.sized;
    }

pub Codes-bool :
    (message : String) (b : Bool) → Codes (append_u8 (if b then 1 else 0)) (decode_bool message) b 1
unfolding decode_bool
Codes-bool message true = Codes-as (decode_bool_of message) 1 true (omega arith) refl
Codes-bool message false = Codes-as (decode_bool_of message) 0 false (omega arith) refl

pub Codes-u8_u16_zeros : Codes (append_u8 0 ▷ append_u16 0) (expect_zeros 3) tt 3
unfolding ◌▷◌ append_u8 expect_zeros zeros little_endian
Codes-u8_u16_zeros = record {
  bytes = zeros 3;
  appends = λ output.
      append_u16-little_endian 0 (output ++ 0 ∷ [])
      ∙ append_assoc output (0 ∷ []) (little_endian 2 0);
  reads = λ left. required_lem (zeros 3) left 3 _ refl ∙ skip_zeros-zeros 3 left;
  sized = refl;
}

pub Codes-i32 : (n : ℕ) → n < 2 ^ 32 → Codes (append_i32 n) read_i32 n 4
unfolding append_i32 read_i32
Codes-i32 n h = record {
  bytes = (Codes-u32 n h).bytes;
  appends = (Codes-u32 n h).appends;
  reads = (Codes-u32 n h).reads;
  sized = (Codes-u32 n h).sized;
}

pub Codes-guid :
    (guid : Bytes) → length guid ≡ 16 → Codes (append_string_bytes guid) read_guid guid 16
unfolding read_guid read_string
Codes-guid guid e = record {
  bytes = (Codes-string guid 16 e).bytes;
  appends = (Codes-string guid 16 e).appends;
  reads = (Codes-string guid 16 e).reads;
  sized = (Codes-string guid 16 e).sized;
}
