-- ===== src/Registers/Laws.antt =====
-- src/registers.rs: on a block that was accepted the device's registers are always in range.
use rust_gpu_driver_lab.Base.{ℕ, ◌≤◌, ◌<◌, ◌≡◌, ◌≢◌, arith, ◌==◌, if◌then◌else◌, ltb, ok, err}
use rust_gpu_driver_lab.Mmio
use rust_gpu_driver_lab.Mmio.{Memory, Slice, MmioRegion, register_address}
use rust_gpu_driver_lab.Mmio.Laws.{read_lem, write_lem}
use rust_gpu_driver_lab.Registers
use rust_gpu_driver_lab.Registers.{
  Access, ReadableAccess, WritableAccess, Register, GpuRegisterBlock, RegisterBlockError,
  required_registers, region_too_small,
}

-- Every register that the block can address.
abbrev pub IsBlock : GpuRegisterBlock → Type 0
IsBlock b = required_registers ≤ b.mmio.register_count

-- A slice is accepted exactly if it holds the five registers.
pub from_slice_lem :
    (s : Slice)
    → s.address ≢ 0
    → Registers.from_slice s ≡ (
        if ltb s.count required_registers
        then err (region_too_small required_registers s.count)
        else ok (record { mmio = record { base = s.address; register_count = s.count } }))
unfolding Registers.from_slice Mmio.from_slice
from_slice_lem s h = ground arith

pub from_slice-IsBlock :
    (s : Slice) {b : GpuRegisterBlock} → s.address ≢ 0 → Registers.from_slice s ≡ ok b → IsBlock b
from_slice-IsBlock s h e = ground (arith, from_slice_lem s h)

pub from_mmio-IsBlock :
    (r : MmioRegion) {b : GpuRegisterBlock} → Registers.from_mmio r ≡ ok b → IsBlock b
unfolding Registers.from_mmio
from_mmio-IsBlock r e = ground arith

-- What a register holds.
abbrev pub held : Memory → GpuRegisterBlock → {a : Access} → Register a → ℕ
held m b r = m (register_address b.mmio r.index)

module _ (m : Memory) (b : GpuRegisterBlock) (h : IsBlock b) where
  pub read_ok :
      {a : Access} (readable : ReadableAccess a) (r : Register a)
      → r.index < required_registers
      → Registers.read readable m b r ≡ ok (held m b r)
  unfolding Registers.read
  read_ok readable r i = ground (arith, read_lem m b.mmio r.index)

  pub write_ok :
      {a : Access} (writable : WritableAccess a) (r : Register a) (v : ℕ)
      → r.index < required_registers
      → Registers.write writable m b r v
        ≡ (Mmio.stored m (register_address b.mmio r.index) v, ok tt)
  unfolding Registers.write
  write_ok writable r v i = ground (arith, write_lem m b.mmio r.index v)

-- On an accepted block a write to a device register succeeds, and of the device registers it changes
-- that one only.
pub held-write :
    (m : Memory) (b : GpuRegisterBlock) {a c : Access} (writable : WritableAccess a)
    (r : Register a) (s : Register c) (v : ℕ)
    → IsBlock b
    → r.index < required_registers
    → ((Registers.write writable m b r v).1 ≡ ok tt)
      × (held (Registers.write writable m b r v).0 b s
          ≡ (if r.index == s.index then v else held m b s))
held-write m b writable r s v h i = ground (arith, write_ok m b h writable r v i)
