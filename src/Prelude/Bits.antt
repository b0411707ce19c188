-- ===== src/Prelude/Bits.antt =====
-- `bit_or`, `bit_and` and the complement of a word, digit by digit: an integer as a set of bits.
use Prim.Native.Nat.{
  ℕ, zero, suc, ◌+◌, ◌-◌, ◌*◌, ◌/◌, ◌%◌, ◌^◌, ◌≤◌, ◌<◌, max, min, bit_or, bit_and, digits,
  bit_or-bitwise, bit_and-bitwise,
}
use mathlib.Core.Bool.{Bool, true, ◌&&◌}
use mathlib.Core.Logic.{◌↔◌}
use mathlib.Core.Path.{◌≡◌, refl, sym, ap, ◌∙◌}
use native.Mathlib.Omega.{arith}
use noleax.Prelude.Tests.{ltb, ◌==◌, if◌then◌else◌, ◌!=◌}

-- The digit with the weight `2 ^ k`.
unfoldable pub digit : ℕ → ℕ → ℕ
digit zero n = n % 2
digit (suc k) n = digit k (n / 2)

-- `~x` on 32 bits.
unfoldable pub bit_not : ℕ → ℕ
bit_not x = 2 ^ 32 - 1 - x

module _ (z : ℕ → ℕ) (f : ℕ → ℕ → ℕ) where
  -- Once the count of digits to go is enough, the result does not depend on it.
  enough_digits :
      (short long x y : ℕ) → x ≤ long → x ≤ short → digits z f long x y ≡ digits z f short x y
  enough_digits (suc short) (suc long) (suc x) y hl hs =
      let half = enough_digits short long (suc x / 2) (y / 2) (omega arith) (omega arith) in
      ap (λ d. d * 2 + f (suc x % 2) (y % 2)) half
  enough_digits short zero (suc x) y hl hs = absurd (omega arith)
  enough_digits zero (suc long) (suc x) y hl hs = absurd (omega arith)
  enough_digits zero zero zero y hl hs = refl
  enough_digits (suc short) zero zero y hl hs = refl
  enough_digits zero (suc long) zero y hl hs = refl
  enough_digits (suc short) (suc long) zero y hl hs = refl

  -- The lowest digit, and the rest with a count of its own.
  unroll :
      (x y : ℕ)
      → digits z f (suc x) (suc x) y
        ≡ digits z f (suc x / 2) (suc x / 2) (y / 2) * 2 + f (suc x % 2) (y % 2)
  unroll x y =
      ap (λ d. d * 2 + f (suc x % 2) (y % 2))
        (enough_digits (suc x / 2) x (suc x / 2) (y / 2) (omega arith) (omega arith))

pub bit_or_step : (x y : ℕ) → bit_or x y ≡ bit_or (x / 2) (y / 2) * 2 + max (x % 2) (y % 2)
bit_or_step zero y = omega (arith, bit_or-bitwise 0 y, bit_or-bitwise 0 (y / 2))
bit_or_step (suc x) y =
    bit_or-bitwise (suc x) y
    ∙ unroll (λ c. c) max x y
    ∙ ap (λ d. d * 2 + max (suc x % 2) (y % 2)) (sym (bit_or-bitwise (suc x / 2) (y / 2)))

pub bit_and_step : (x y : ℕ) → bit_and x y ≡ bit_and (x / 2) (y / 2) * 2 + min (x % 2) (y % 2)
bit_and_step zero y = omega (arith, bit_and-bitwise 0 y, bit_and-bitwise 0 (y / 2))
bit_and_step (suc x) y =
    bit_and-bitwise (suc x) y
    ∙ unroll (λ c. 0) min x y
    ∙ ap (λ d. d * 2 + min (suc x % 2) (y % 2)) (sym (bit_and-bitwise (suc x / 2) (y / 2)))

half-bit_or : (a b : ℕ) → bit_or a b / 2 ≡ bit_or (a / 2) (b / 2)
half-bit_or a b = omega (arith, bit_or_step a b)

half-bit_and : (a b : ℕ) → bit_and a b / 2 ≡ bit_and (a / 2) (b / 2)
half-bit_and a b = omega (arith, bit_and_step a b)

pub digit-bit_or : (k a b : ℕ) → digit k (bit_or a b) ≡ max (digit k a) (digit k b)
unfolding digit
digit-bit_or zero a b = omega (arith, bit_or_step a b)
digit-bit_or (suc k) a b = ap (digit k) (half-bit_or a b) ∙ digit-bit_or k (a / 2) (b / 2)

pub digit-bit_and : (k a b : ℕ) → digit k (bit_and a b) ≡ min (digit k a) (digit k b)
unfolding digit
digit-bit_and zero a b = omega (arith, bit_and_step a b)
digit-bit_and (suc k) a b = ap (digit k) (half-bit_and a b) ∙ digit-bit_and k (a / 2) (b / 2)

pub digit_le : (k n : ℕ) → digit k n ≤ 1
unfolding digit
digit_le zero n = omega arith
digit_le (suc k) n = digit_le k (n / 2)

pub digit-zero : (k : ℕ) → digit k 0 ≡ 0
unfolding digit
digit-zero zero = refl
digit-zero (suc k) = digit-zero k

pub digit_cong : (k a b : ℕ) → a ≡ b → digit k a ≡ digit k b
digit_cong k a b e = ap (digit k) e

pow_suc : (k : ℕ) → 2 ^ suc k ≡ 2 * 2 ^ k
pow_suc k = omega arith

pow_pos : (k : ℕ) → 1 ≤ 2 ^ k
pow_pos zero = omega arith
pow_pos (suc k) = omega (arith, pow_suc k, pow_pos k)

pub pow_mono : (m n : ℕ) → m ≤ n → 2 ^ m ≤ 2 ^ n
pow_mono zero n h = pow_pos n
pow_mono (suc m) zero h = absurd (omega arith)
pow_mono (suc m) (suc n) h = omega (arith, pow_suc m, pow_suc n, pow_mono m n (omega arith))

half_pow : (k : ℕ) → 2 ^ suc k / 2 ≡ 2 ^ k
half_pow k = omega (arith, pow_suc k)

pub digit-pow : (k j : ℕ) → digit k (2 ^ j) ≡ (if j == k then 1 else 0)
unfolding digit
digit-pow zero zero = refl
digit-pow zero (suc j) = grind (arith, pow_suc j)
digit-pow (suc k) zero = grind (arith, digit-zero k)
digit-pow (suc k) (suc j) = grind (arith, ap (digit k) (half_pow j), digit-pow k j)

pub digit-ones : (k n : ℕ) → digit k (2 ^ n - 1) ≡ (if ltb k n then 1 else 0)
unfolding digit
digit-ones k zero = grind (arith, digit-zero k)
digit-ones zero (suc n) = grind (arith, pow_suc n, pow_pos n)
digit-ones (suc k) (suc n) = grind (
  arith,
  digit_cong k ((2 ^ suc n - 1) / 2) (2 ^ n - 1) (omega (arith, pow_suc n)),
  digit-ones k n,
)

complement_digit : (k w x : ℕ) → k < w → x < 2 ^ w → digit k (2 ^ w - 1 - x) ≡ 1 - digit k x
unfolding digit
complement_digit k zero x h lt = absurd (omega arith)
complement_digit zero (suc w) x h lt = omega arith
complement_digit (suc k) (suc w) x h lt =
    ap (digit k) (omega arith) ∙ complement_digit k w (x / 2) (omega arith) (omega arith)

pub digit-bit_not : (k x : ℕ) → k < 32 → x < 2 ^ 32 → digit k (bit_not x) ≡ 1 - digit k x
unfolding bit_not
digit-bit_not k x h lt = complement_digit k 32 x h lt

pub digit-large : (k n : ℕ) → n < 2 ^ k → digit k n ≡ 0
unfolding digit
digit-large zero n h = omega arith
digit-large (suc k) n h = digit-large k (n / 2) (omega arith)

pub zero-digits : (fuel n : ℕ) → n ≤ fuel → ((k : ℕ) → digit k n ≡ 0) → n ≡ 0
unfolding digit
zero-digits zero n h d = omega arith
zero-digits (suc fuel) zero h d = refl
zero-digits (suc fuel) (suc n) h d =
    omega (arith, d 0, zero-digits fuel (suc n / 2) (omega arith) (λ k. d (suc k)))

pub bit_and-zero : (m : ℕ) → bit_and m 0 ≡ 0
bit_and-zero m =
    zero-digits (bit_and m 0) (bit_and m 0) (omega arith)
      (λ k. omega (arith, digit-bit_and k m 0, digit-zero k))

shifted : (d p q x : ℕ) → d ≤ 1 → q ≡ 2 * p → x ≡ d * p → x * 2 ≡ d * q
shifted zero p q x h e f = omega arith
shifted (suc zero) p q x h e f = omega arith
shifted (suc (suc d)) p q x h e f = absurd (omega arith)

-- A mask of one bit selects its digit.
pub bit_and-pow : (k m : ℕ) → bit_and m (2 ^ k) ≡ digit k m * 2 ^ k
unfolding digit
bit_and-pow zero m = omega (arith, bit_and_step m 1, bit_and-zero (m / 2))
bit_and-pow (suc k) m = omega (
  arith,
  bit_and_step m (2 ^ suc k),
  ap (bit_and (m / 2)) (half_pow k),
  pow_suc k,
  pow_pos k,
  shifted (digit k (m / 2)) (2 ^ k) (2 ^ suc k) (bit_and (m / 2) (2 ^ k)) (digit_le k (m / 2))
      (pow_suc k) (bit_and-pow k (m / 2)),
)

pub is_set-digit : (k m : ℕ) → (bit_and m (2 ^ k) != 0) ≡ (digit k m == 1)
is_set-digit k m = grind (arith, bit_and-pow k m, digit_le k m, pow_pos k)

-- A conjunction is zero where no digit is set on both sides.
pub and_zero-digits : (m c : ℕ) → (bit_and m c ≡ 0) ↔ ((k : ℕ) → digit k c ≡ 1 → digit k m ≡ 0)
and_zero-digits m c = (
  λ e k h. ground (arith, digit-bit_and k m c, ap (digit k) e, digit-zero k),
  λ f.
      zero-digits (bit_and m c) (bit_and m c) (omega arith)
        (λ k. ground (arith, digit-bit_and k m c, f k, digit_le k m, digit_le k c)),
)

-- The test holds for every number below the bound: evaluated where these are literals.
abbrev pub all_below : ℕ → (ℕ → Bool) → Bool
all_below zero test = true
all_below (suc bound) test = all_below bound test && test bound

pub checked_below :
    (bound : ℕ) (test : ℕ → Bool) (k : ℕ) → k < bound → all_below bound test ≡ true → test k ≡ true
checked_below zero test k lt h = absurd (omega arith)
checked_below (suc bound) test k lt h = ground (arith, checked_below bound test k)
