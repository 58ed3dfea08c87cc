-- ===== src/Mmio.antt =====
-- src/mmio.rs: a region of 32-bit registers in memory. The region is borrowed exclusively, so the
-- memory changes only through it; volatile accesses are plain ones in order.
pub mod Laws
use rust_gpu_driver_lab.Base.{
  ℕ, ◌+◌, ◌*◌, Bool, not, ltb, leb, ◌==◌, if◌then◌else◌, is_multiple_of, Run, returns, panicked,
  Outcome, ok, err, ◌>>=◌, ◌>>◌, reject_if, commit, call,
}

pub data MmioError : Type 0 where
  empty_region : MmioError
  null_base : MmioError
  misaligned_base : (address required_alignment : ℕ) → MmioError
  out_of_bounds : (index register_count : ℕ) → MmioError

-- The register at each address.
abbrev pub Memory : Type 0
Memory = ℕ → ℕ

-- A borrowed `[u32]`: where it starts and how long it is.
pub record Slice : Type 0 where
  pub address : ℕ
  pub count : ℕ

pub record MmioRegion : Type 0 where
  pub base : ℕ
  pub register_count : ℕ

-- `align_of::<u32>()`, which is also the size of a register.
abbrev pub register_alignment : ℕ
register_alignment = 4

-- `NonNull::new(base).ok_or(MmioError::NullBase)?`.
abbrev pub non_null : ℕ → Outcome MmioError ℕ
non_null address = if address == 0 then err null_base else ok address

-- `&mut registers[0]`, which panics on an empty slice.
abbrev pub first : Slice → Run ℕ
first s = if s.count == 0 then panicked else returns s.address

unfoldable pub from_slice : Slice → Outcome MmioError MmioRegion
from_slice registers = do
  reject_if (registers.count == 0) empty_region
  pointer ← call (first registers)
  base ← non_null pointer
  ok (record { base = base; register_count = registers.count })

unfoldable pub from_raw_parts : ℕ → ℕ → Outcome MmioError MmioRegion
from_raw_parts base register_count = do
  reject_if (base == 0) null_base
  reject_if (register_count == 0) empty_region
  reject_if (not (is_multiple_of base register_alignment)) (misaligned_base base register_alignment)
  pointer ← non_null base
  ok (record { base = pointer; register_count = register_count })

abbrev pub len : MmioRegion → ℕ
len region = region.register_count

abbrev pub is_empty : MmioRegion → Bool
is_empty region = region.register_count == 0

unfoldable pub check_index : MmioRegion → ℕ → Outcome MmioError (Unit {0})
check_index region index = reject_if (leb (len region) index) (out_of_bounds index (len region))

-- `self.base.add(index)`.
abbrev pub register_address : MmioRegion → ℕ → ℕ
register_address region index = region.base + register_alignment * index

unfoldable pub read : Memory → MmioRegion → ℕ → Outcome MmioError ℕ
unfolding check_index
read memory region index = do check_index region index; ok (memory (register_address region index))

-- `write_volatile`.
abbrev pub stored : Memory → ℕ → ℕ → Memory
stored memory address value = λ other. if other == address then value else memory other

unfoldable pub write : Memory → MmioRegion → ℕ → ℕ → Memory × Outcome MmioError (Unit {0})
unfolding check_index
write memory region index value =
    commit memory
      do check_index region index; ok (stored memory (register_address region index) value)
