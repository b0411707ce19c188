-- ===== src/Trace/Bytes.antt =====
-- src/trace/record_codec.cpp and src/trace/wire_format.cpp: the appending of numbers to a vector of
-- bytes. A byte is a number below 256, and a function that appends takes the vector last.
use noleax.Prelude.{
  ℕ, zero, suc, ◌+◌, ◌*◌, ◌/◌, ◌%◌, ◌^◌, List, [], ◌∷◌, ◌++◌, ◌≡◌, refl, ap, sym, ◌∙◌, length,
  arith,
}
use noleax.Prelude.Shifts.{low_byte}
use mathlib.Core.List.{append_assoc, append-nil}
use Prim.Native.Nat.{bit_and}
use native.Mathlib.Nat.{div-div-eq-div-mul}

abbrev pub Bytes : Type 0
Bytes = List ℕ

-- A function that appends to a vector of bytes.
abbrev pub Append : Type 0
Append = Bytes → Bytes

-- One append after another.
infixr 6 ◌▷◌
unfoldable pub ◌▷◌ : Append → Append → Append
(f ▷ g) output = g (f output)

unfoldable pub append_u8 : ℕ → Append
append_u8 value output = output ++ value % 256 ∷ []

unfoldable pub append_u16 : ℕ → Append
append_u16 value output =
    append_u8 (bit_and (value / 2 ^ 8) 0xff) (append_u8 (bit_and value 0xff) output)

-- The loop over the shifts 0, 8, 16, ...: the bytes that are still to be appended, and the shift.
unfoldable pub append_shifted : ℕ → ℕ → ℕ → Append
append_shifted zero shift value output = output
append_shifted (suc count) shift value output =
    append_shifted count (shift + 8) value (append_u8 (bit_and (value / 2 ^ shift) 0xff) output)

unfoldable pub append_u32 : ℕ → Append
append_u32 value output = append_shifted 4 0 value output

unfoldable pub append_u64 : ℕ → Append
append_u64 value output = append_shifted 8 0 value output

-- A signed number is the word with its bits.
unfoldable pub append_i32 : ℕ → Append
append_i32 value output = append_u32 value output

unfoldable pub zeros : ℕ → Bytes
zeros zero = []
zeros (suc count) = 0 ∷ zeros count

unfoldable pub append_zeros : ℕ → Append
append_zeros count output = output ++ zeros count

-- A string is the list of its bytes.
unfoldable pub append_string_bytes : Bytes → Append
append_string_bytes value output = output ++ value

-- `for (const T& value : list) <append the value>;`
unfoldable pub append_each : {A : Type 0} → (A → Append) → List A → Append
append_each append [] output = output
append_each append (value ∷ values) output = append_each append values (append value output)

-- The bytes of a number, lowest first.
unfoldable pub little_endian : ℕ → ℕ → Bytes
little_endian zero value = []
little_endian (suc count) value = value % 256 ∷ little_endian count (value / 256)

pub length-little_endian : (count value : ℕ) → length (little_endian count value) ≡ count
unfolding little_endian
length-little_endian zero value = refl
length-little_endian (suc count) value = omega (arith, length-little_endian count (value / 256))

pub length-zeros : (count : ℕ) → length (zeros count) ≡ count
unfolding zeros
length-zeros zero = refl
length-zeros (suc count) = omega (arith, length-zeros count)

append_u8-byte :
    (v : ℕ) (output : Bytes) → append_u8 (bit_and v 0xff) output ≡ output ++ v % 256 ∷ []
unfolding append_u8
append_u8-byte v output = ap (λ b. output ++ b ∷ []) (omega (arith, low_byte v))

pub byte_up : (shift : ℕ) → 2 ^ (shift + 8) ≡ 2 ^ shift * 256
byte_up zero = refl
byte_up (suc shift) =
    let e : 2 ^ (suc shift + 8) ≡ 2 ^ suc (shift + 8) = ap (λ k. 2 ^ k) (omega arith) in
    omega (arith, e, byte_up shift)

div_shift : (value shift : ℕ) → value / 2 ^ (shift + 8) ≡ value / 2 ^ shift / 256
div_shift value shift =
    ap (λ d. value / d) (byte_up shift) ∙ sym (div-div-eq-div-mul value (2 ^ shift) 256)

append_shifted-little_endian :
    (count shift value : ℕ) (output : Bytes)
    → append_shifted count shift value output ≡ output ++ little_endian count (value / 2 ^ shift)
unfolding append_shifted little_endian
append_shifted-little_endian zero shift value output = sym (append-nil output)
append_shifted-little_endian (suc count) shift value output =
    append_shifted-little_endian count (shift + 8) value
      (append_u8 (bit_and (value / 2 ^ shift) 0xff) output)
    ∙ rw (append_u8-byte (value / 2 ^ shift) output, div_shift value shift)
        (append_assoc output (value / 2 ^ shift % 256 ∷ [])
          (little_endian count (value / 2 ^ shift / 256)))

pub append_u16-little_endian :
    (value : ℕ) (output : Bytes) → append_u16 value output ≡ output ++ little_endian 2 value
unfolding append_u16 little_endian
append_u16-little_endian value output =
    rw (append_u8-byte value output, append_u8-byte (value / 2 ^ 8) (output ++ value % 256 ∷ []))
      (append_assoc output (value % 256 ∷ []) (value / 256 % 256 ∷ []))

pub append_u32-little_endian :
    (value : ℕ) (output : Bytes) → append_u32 value output ≡ output ++ little_endian 4 value
unfolding append_u32
append_u32-little_endian value output =
    append_shifted-little_endian 4 0 value output
    ∙ ap (λ v. output ++ little_endian 4 v) (omega arith)

pub append_u64-little_endian :
    (value : ℕ) (output : Bytes) → append_u64 value output ≡ output ++ little_endian 8 value
unfolding append_u64
append_u64-little_endian value output =
    append_shifted-little_endian 8 0 value output
    ∙ ap (λ v. output ++ little_endian 8 v) (omega arith)
