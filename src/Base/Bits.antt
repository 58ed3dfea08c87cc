-- ===== src/Base/Bits.antt =====
-- `&`, `|`, `<<` and `>>` on machine words, as arithmetic.
mod Step
pub use Step.{bit_and_step, bit_or_step}
use Prim.Native.Nat.{
  ℕ, zero, suc, ◌+◌, ◌-◌, ◌*◌, ◌/◌, ◌%◌, ◌^◌, ◌≤◌, ◌<◌, bit_and, bit_or, bit_or-bitwise,
}
use mathlib.Core.Path.{◌≡◌, refl, ap, ◌∙◌}
use mathlib.Core.Bool.{Bool, true, ◌&&◌}
use native.Mathlib.Omega.{arith}
use native.Mathlib.Nat.{pow-suc, one-le-pow}

-- `!mask` on a `u32`.
abbrev pub complement : ℕ → ℕ
complement mask = 2 ^ 32 - 1 - mask

-- `x << k` on a `u32`, which drops what leaves the word, and `x >> k`.
abbrev pub shift_left : ℕ → ℕ → ℕ
shift_left x k = x * 2 ^ k % 2 ^ 32

abbrev pub shift_right : ℕ → ℕ → ℕ
shift_right x k = x / 2 ^ k

-- Against zero, by halving.
zero_right : (bound a : ℕ) → a ≤ bound → (bit_and a 0 ≡ 0) × (bit_or a 0 ≡ a)
zero_right bound zero h = (refl, refl)
zero_right zero (suc a) h = absurd (omega arith)
zero_right (suc bound) (suc a) h =
    let half = zero_right bound (suc a / 2) (omega arith) in
    (omega (arith, bit_and_step (suc a) 0, half.0), omega (arith, bit_or_step (suc a) 0, half.1))

pub bit_and-zero : (a : ℕ) → bit_and a 0 ≡ 0
bit_and-zero a = (zero_right a a (omega arith)).0

pub bit_or-zero : (a : ℕ) → bit_or a 0 ≡ a
bit_or-zero a = (zero_right a a (omega arith)).1

-- `ones k` is the mask of the `k` lowest bits.
ones : ℕ → ℕ
ones zero = 0
ones (suc k) = ones k * 2 + 1

-- The remainder by `2 ^ k`, digit by digit.
low : ℕ → ℕ → ℕ
low zero a = 0
low (suc k) a = low k (a / 2) * 2 + a % 2

and_ones : (k a : ℕ) → bit_and a (ones k) ≡ low k a
unfolding ones low
and_ones zero a = bit_and-zero a
and_ones (suc k) a =
    let halved : (ones k * 2 + 1) / 2 ≡ ones k = omega arith in
    omega (
      arith,
      bit_and_step a (ones k * 2 + 1),
      and_ones k (a / 2),
      ap (λ m. bit_and (a / 2) m) halved,
    )

-- The masks that the registers use.
pub bit_and-1 : (a : ℕ) → bit_and a 1 ≡ a % 2
unfolding ones low
bit_and-1 a = omega (arith, and_ones 1 a)

pub bit_and-3 : (a : ℕ) → bit_and a 3 ≡ a % 4
unfolding ones low
bit_and-3 a = omega (arith, and_ones 2 a)

pub bit_and-15 : (a : ℕ) → bit_and a 15 ≡ a % 16
unfolding ones low
bit_and-15 a = omega (arith, and_ones 4 a)

pub bit_and-2 : (a : ℕ) → bit_and a 2 ≡ a / 2 % 2 * 2
bit_and-2 a = omega (arith, bit_and_step a 2, bit_and-1 (a / 2))

pub bit_and-4 : (a : ℕ) → bit_and a 4 ≡ a / 4 % 2 * 4
bit_and-4 a = omega (arith, bit_and_step a 4, bit_and-2 (a / 2))

pub bit_and-8 : (a : ℕ) → bit_and a 8 ≡ a / 8 % 2 * 8
bit_and-8 a = omega (arith, bit_and_step a 8, bit_and-4 (a / 2))

pub bit_and-6 : (a : ℕ) → bit_and a 6 ≡ a / 2 % 4 * 2
bit_and-6 a = omega (arith, bit_and_step a 6, bit_and-3 (a / 2))

low_below : (k a : ℕ) → a < 2 ^ k → low k a ≡ a
unfolding low
low_below zero a h = omega arith
low_below (suc k) a h = omega (arith, low_below k (a / 2) (omega (arith, pow-suc 2 k)))

-- A mask with all bits of the word keeps it.
and_all : (k a : ℕ) → a < 2 ^ k → bit_and a (ones k) ≡ a
and_all k a h = and_ones k a ∙ low_below k a h

-- Clearing a field of a `u32`.
pub bit_and-not1 : (a : ℕ) → a < 2 ^ 32 → bit_and a (complement 1) ≡ a / 2 * 2
unfolding ones
bit_and-not1 a h = omega (arith, bit_and_step a (complement 1), and_all 31 (a / 2) (omega arith))

pub bit_and-not8 : (a : ℕ) → a < 2 ^ 32 → bit_and a (complement 8) ≡ a / 16 * 16 + a % 8
unfolding ones
bit_and-not8 a h = omega (
  arith,
  bit_and_step a (complement 8),
  bit_and_step (a / 2) (complement 8 / 2),
  bit_and_step (a / 2 / 2) (complement 8 / 4),
  bit_and_step (a / 2 / 2 / 2) (complement 8 / 8),
  and_all 28 (a / 2 / 2 / 2 / 2) (omega arith),
)

pub bit_and-not6 : (a : ℕ) → a < 2 ^ 32 → bit_and a (complement 6) ≡ a / 8 * 8 + a % 2
unfolding ones
bit_and-not6 a h = omega (
  arith,
  bit_and_step a (complement 6),
  bit_and_step (a / 2) (complement 6 / 2),
  bit_and_step (a / 2 / 2) (complement 6 / 4),
  and_all 29 (a / 2 / 2 / 2) (omega arith),
)

-- A mask moved up by one.
and_double : (a m : ℕ) → bit_and a (m * 2) ≡ bit_and (a / 2) m * 2
and_double a m =
    let halved : m * 2 / 2 ≡ m = omega arith in
    omega (arith, bit_and_step a (m * 2), ap (λ n. bit_and (a / 2) n) halved)

-- Moved up by four, twice.
and_four : (a m : ℕ) → bit_and a (m * 16) ≡ bit_and (a / 16) m * 16
and_four a m =
    let quartered : a / 2 / 2 / 2 / 2 ≡ a / 16 = omega arith in
    let spread : m * 16 ≡ m * 2 * 2 * 2 * 2 = omega arith in
    omega (
      arith,
      ap (λ n. bit_and a n) spread,
      and_double a (m * 2 * 2 * 2),
      and_double (a / 2) (m * 2 * 2),
      and_double (a / 2 / 2) (m * 2),
      and_double (a / 2 / 2 / 2) m,
      ap (λ n. bit_and n m) quartered,
    )

pub bit_and-65280 : (a : ℕ) → bit_and a 65280 ≡ a / 256 % 256 * 256
unfolding ones low
bit_and-65280 a = omega (arith, and_four a 4080, and_four (a / 16) 255, and_ones 8 (a / 16 / 16))

-- Setting a bit.
pub bit_or-1 : (a : ℕ) → bit_or a 1 ≡ a / 2 * 2 + 1
bit_or-1 a = omega (arith, bit_or_step a 1, bit_or-zero (a / 2))

pub bit_or-8 : (a : ℕ) → bit_or a 8 ≡ a / 16 * 16 + 8 + a % 8
bit_or-8 a = omega (
  arith,
  bit_or_step a 8,
  bit_or_step (a / 2) 4,
  bit_or_step (a / 2 / 2) 2,
  bit_or-1 (a / 2 / 2 / 2),
)

-- Joining the field of bits 1 and 2 to a word in which it is clear.
pub bit_or-field6 : (q r m : ℕ) → r < 2 → m < 4 → bit_or (q * 8 + r) (m * 2) ≡ q * 8 + r + m * 2
bit_or-field6 q r m hr hm = ground (
  arith,
  bit_or_step (q * 8 + r) (m * 2),
  bit_or_step ((q * 8 + r) / 2) (m * 2 / 2),
  bit_or_step ((q * 8 + r) / 2 / 2) (m * 2 / 2 / 2),
  bit_or-zero ((q * 8 + r) / 2 / 2 / 2),
)

-- Joining a byte above the lowest eight bits to a number below four.
pub bit_or-byte : (r q : ℕ) → r < 4 → bit_or r (q * 256) ≡ q * 256 + r
bit_or-byte r q h = ground (
  arith,
  bit_or_step r (q * 256),
  bit_or_step (r / 2) (q * 256 / 2),
  bit_or-bitwise 0 (q * 256 / 2 / 2),
)
