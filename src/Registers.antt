-- ===== src/Registers.antt =====
-- src/registers.rs: the registers of the device, with what may be done to each in its type.
pub mod Laws
use rust_gpu_driver_lab.Base.{ℕ, ltb, Outcome, ok, err, panic, ◌>>=◌, ◌>>◌, reject_if, map_err}
use rust_gpu_driver_lab.Mmio
use rust_gpu_driver_lab.Mmio.{Memory, MmioError, MmioRegion, Slice}

-- The sealed trait `RegisterAccess`, by the markers that implement it.
pub data Access : Type 0 where
  read_only write_only read_write : Access

-- The traits `ReadableAccess` and `WritableAccess`, by their implementations.
pub data ReadableAccess : Access → Type 0 where
  read_only_readable : ReadableAccess read_only
  read_write_readable : ReadableAccess read_write

pub data WritableAccess : Access → Type 0 where
  write_only_writable : WritableAccess write_only
  read_write_writable : WritableAccess read_write

pub record Register (a : Access) : Type 0 where
  pub index : ℕ

abbrev pub control : Register read_write
control = record { index = 0 }

abbrev pub status : Register read_only
status = record { index = 1 }

abbrev pub command : Register write_only
command = record { index = 2 }

abbrev pub int_status : Register read_only
int_status = record { index = 3 }

abbrev pub int_ack : Register write_only
int_ack = record { index = 4 }

abbrev pub required_registers : ℕ
required_registers = 5

pub data RegisterBlockError : Type 0 where
  region_too_small : (required actual : ℕ) → RegisterBlockError
  mmio : MmioError → RegisterBlockError

pub record GpuRegisterBlock : Type 0 where
  pub mmio : MmioRegion

unfoldable pub check_register_len : ℕ → Outcome RegisterBlockError (Unit {0})
check_register_len len =
    reject_if (ltb len required_registers) (region_too_small required_registers len)

unfoldable pub from_mmio : MmioRegion → Outcome RegisterBlockError GpuRegisterBlock
unfolding check_register_len
from_mmio region = do check_register_len (Mmio.len region); ok (record { mmio = region })

unfoldable pub from_slice : Slice → Outcome RegisterBlockError GpuRegisterBlock
unfolding check_register_len
from_slice registers = do
  check_register_len registers.count
  region ← map_err RegisterBlockError.mmio (Mmio.from_slice registers)
  ok (record { mmio = region })

unfoldable pub read :
    {a : Access}
    → ReadableAccess a
    → Memory
    → GpuRegisterBlock
    → Register a
    → Outcome RegisterBlockError ℕ
read readable memory block register =
    map_err RegisterBlockError.mmio (Mmio.read memory block.mmio register.index)

unfoldable pub write :
    {a : Access}
    → WritableAccess a
    → Memory
    → GpuRegisterBlock
    → Register a
    → ℕ
    → Memory × Outcome RegisterBlockError (Unit {0})
write writable memory block register value =
    let (written, result) = Mmio.write memory block.mmio register.index value in
    (written, map_err RegisterBlockError.mmio result)
