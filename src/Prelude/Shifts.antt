-- ===== src/Prelude/Shifts.antt =====
-- Bytes and shifts: the low byte of a word, and a word put together from disjoint parts.
use Prim.Native.Nat.{ℕ, zero, suc, ◌+◌, ◌*◌, ◌/◌, ◌%◌, ◌^◌, ◌<◌, bit_or, bit_and, bit_or-bitwise}
use mathlib.Core.Path.{◌≡◌, ap}
use native.Mathlib.Omega.{arith}
use noleax.Prelude.Bits.{bit_or_step, bit_and_step, bit_and-zero}

twice : (b p q : ℕ) → q ≡ 2 * p → b * q ≡ 2 * (b * p)
twice b p q e = grind (arith, e)

bit_or_half : (a b p q : ℕ) → q ≡ 2 * p → bit_or (a / 2) (b * q / 2) ≡ bit_or (a / 2) (b * p)
bit_or_half a b p q e = ap (bit_or (a / 2)) (omega (arith, twice b p q e))

-- Parts without a common bit are added.
pub bit_or_high : (k a b : ℕ) → a < 2 ^ k → bit_or a (b * 2 ^ k) ≡ a + b * 2 ^ k
bit_or_high zero zero b h = omega (arith, bit_or-bitwise 0 (b * 1))
bit_or_high zero (suc a) b h = absurd (omega arith)
bit_or_high (suc k) a b h =
    let e : 2 ^ suc k ≡ 2 * 2 ^ k = omega arith in
    omega (
      arith,
      e,
      bit_or_step a (b * 2 ^ suc k),
      bit_or_half a b (2 ^ k) (2 ^ suc k) e,
      twice b (2 ^ k) (2 ^ suc k) e,
      bit_or_high k (a / 2) b (omega arith),
    )

odd_mask : (m c : ℕ) → bit_and m (2 * c + 1) ≡ 2 * bit_and (m / 2) c + m % 2
odd_mask m c =
    let e : bit_and (m / 2) ((2 * c + 1) / 2) ≡ bit_and (m / 2) c =
      ap (bit_and (m / 2)) (omega arith) in
    omega (arith, bit_and_step m (2 * c + 1), e)

-- `value & 0xFF`
pub low_byte : (m : ℕ) → bit_and m 0xff ≡ m % 256
low_byte m = omega (
  arith,
  odd_mask m 0x7f,
  odd_mask (m / 2) 0x3f,
  odd_mask (m / 2 / 2) 0x1f,
  odd_mask (m / 2 / 2 / 2) 0xf,
  odd_mask (m / 2 / 2 / 2 / 2) 7,
  odd_mask (m / 2 / 2 / 2 / 2 / 2) 3,
  odd_mask (m / 2 / 2 / 2 / 2 / 2 / 2) 1,
  odd_mask (m / 2 / 2 / 2 / 2 / 2 / 2 / 2) 0,
  bit_and-zero (m / 2 / 2 / 2 / 2 / 2 / 2 / 2 / 2),
)
