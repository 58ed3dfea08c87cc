-- ===== src/Base/Bits/Step.antt =====
-- One equation for the lowest digit, from the recursion that the native operations stand for.
use Prim.Native.Nat.{
  ℕ, zero, suc, ◌+◌, ◌-◌, ◌*◌, ◌/◌, ◌%◌, ◌≤◌, min, max, digits, bitwise, bit_and, bit_or,
  bit_and-bitwise, bit_or-bitwise,
}
use mathlib.Core.Path.{◌≡◌, refl, ap, ◌∙◌}
use native.Mathlib.Omega.{arith}

-- One equation for the lowest digit of what an operation gives.
abbrev pub Digitwise : (ℕ → ℕ → ℕ) → (ℕ → ℕ → ℕ) → Type 0
Digitwise op digit = (x y : ℕ) → op x y ≡ op (x / 2) (y / 2) * 2 + digit (x % 2) (y % 2)

-- Fuel past the first number is left over.
module _ (left_end : ℕ → ℕ) (digit : ℕ → ℕ → ℕ) where
  one_more : (n a b : ℕ) → a ≤ n → digits left_end digit (suc n) a b ≡ digits left_end digit n a b
  one_more (suc n) (suc a) b h =
      ap (λ upper. upper * 2 + digit (suc a % 2) (b % 2))
        (one_more n (suc a / 2) (b / 2) (omega (arith, h)))
  one_more zero (suc a) b h = absurd (omega (arith, h))
  one_more (suc n) zero b h = refl
  one_more zero zero b h = refl

  left_over :
      (extra n a b : ℕ)
      → a ≤ n
      → digits left_end digit (extra + n) a b ≡ digits left_end digit n a b
  left_over zero n a b h =
      let none : 0 + n ≡ n = omega arith in ap (λ m. digits left_end digit m a b) none
  left_over (suc extra) n a b h =
      let next : suc extra + n ≡ suc (extra + n) = omega arith in
      ap (λ m. digits left_end digit m a b) next
      ∙ one_more (extra + n) a b (omega (arith, h))
      ∙ left_over extra n a b h

  -- The recursive call of `bitwise` on a positive number is `bitwise` of the halves.
  halves : (a b : ℕ) → digits left_end digit a (suc a / 2) b ≡ bitwise left_end digit (suc a / 2) b
  halves a b =
      let half = suc a / 2 in
      let fuel : a ≡ a - half + half = omega arith in
      ap (λ n. digits left_end digit n half b) fuel ∙ left_over (a - half) half half b (omega arith)

  lowest_digit :
      (a b : ℕ)
      → bitwise left_end digit (suc a) b
        ≡ bitwise left_end digit (suc a / 2) (b / 2) * 2 + digit (suc a % 2) (b % 2)
  lowest_digit a b = ap (λ upper. upper * 2 + digit (suc a % 2) (b % 2)) (halves a (b / 2))

  -- An operation that means `bitwise`, digit by digit, if the end of the recursion fits.
  digit_by_digit :
      (op : ℕ → ℕ → ℕ)
      → ((x y : ℕ) → op x y ≡ bitwise left_end digit x y)
      → ((y : ℕ) → left_end y ≡ left_end (y / 2) * 2 + digit 0 (y % 2))
      → Digitwise op digit
  digit_by_digit op meaning end zero b = rw (meaning 0 b, meaning 0 (b / 2)) (end b)
  digit_by_digit op meaning end (suc a) b =
      rw (meaning (suc a) b, meaning (suc a / 2) (b / 2)) (lowest_digit a b)

pub bit_and_step : Digitwise bit_and min
bit_and_step =
    digit_by_digit (λ y. 0) min bit_and (λ x y. simp bit_and-bitwise refl) λ y. omega arith

pub bit_or_step : Digitwise bit_or max
bit_or_step = digit_by_digit (λ y. y) max bit_or (λ x y. simp bit_or-bitwise refl) λ y. omega arith
