-- ===== src/Base/Machine.antt =====
-- Machine integers. A value is a plain number; each operation says what it does at the bound.
-- `usize` has 64 bits. Arithmetic that overflows panics, as in a build with overflow checks.
use Prim.Native.Nat.{ℕ, ◌+◌, ◌-◌, ◌%◌, ◌^◌}
use mathlib.Core.Bool.{Bool}
use mathlib.Core.Option.{Option, none, some}
use rust_gpu_driver_lab.Base.Tests.{leb, ◌==◌, if◌then◌else◌}
use rust_gpu_driver_lab.Base.Results.{Run, returns, panicked}

abbrev pub usize_max : ℕ
usize_max = 2 ^ 64 - 1

abbrev pub u32_max : ℕ
u32_max = 2 ^ 32 - 1

abbrev pub u64_max : ℕ
u64_max = 2 ^ 64 - 1

-- The longest slice or vector of bytes.
abbrev pub isize_max : ℕ
isize_max = 2 ^ 63 - 1

-- `checked_add` of the type whose largest value is `top`.
abbrev pub checked_add : ℕ → ℕ → ℕ → Option ℕ
checked_add top a b = if leb (a + b) top then some (a + b) else none

-- `+` and `-` on `usize`.
abbrev pub add_usize : ℕ → ℕ → Run ℕ
add_usize a b = if leb (a + b) usize_max then returns (a + b) else panicked

abbrev pub sub_usize : ℕ → ℕ → Run ℕ
sub_usize a b = if leb b a then returns (a - b) else panicked

-- `%` panics on a zero divisor.
abbrev pub rem_usize : ℕ → ℕ → Run ℕ
rem_usize a b = if b == 0 then panicked else returns (a % b)

-- `u64::saturating_add`.
abbrev pub saturating_add : ℕ → ℕ → ℕ
saturating_add a b = if leb (a + b) u64_max then a + b else u64_max

-- `is_multiple_of`: of zero, only zero.
abbrev pub is_multiple_of : ℕ → ℕ → Bool
is_multiple_of a b = if b == 0 then a == 0 else a % b == 0
