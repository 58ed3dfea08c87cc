-- ===== src/Interrupts.antt =====
-- src/interrupts.rs: interrupt events as a mask, and their acknowledgement.
pub mod Laws
use rust_gpu_driver_lab.Base.{ℕ, Bool, ◌==◌, Outcome, ok, ◌>>=◌, map_err}
use Prim.Native.Nat.{bit_and, bit_or}
use rust_gpu_driver_lab.Mmio.{Memory}
use rust_gpu_driver_lab.Registers
use rust_gpu_driver_lab.Registers.{
  GpuRegisterBlock, RegisterBlockError, read_only_readable, write_only_writable,
}

pub data InterruptError : Type 0 where
  register : RegisterBlockError → InterruptError

pub record InterruptEvents : Type 0 where
  pub bits : ℕ

abbrev pub none : InterruptEvents
none = record { bits = 0 }

abbrev pub command_complete : InterruptEvents
command_complete = record { bits = 1 }

abbrev pub queue_fault : InterruptEvents
queue_fault = record { bits = 2 }

abbrev pub thermal_warning : InterruptEvents
thermal_warning = record { bits = 4 }

abbrev pub firmware_fault : InterruptEvents
firmware_fault = record { bits = 8 }

-- The four masks together.
abbrev pub valid_interrupt_mask : ℕ
valid_interrupt_mask = bit_or (bit_or (bit_or 1 2) 4) 8

unfoldable pub bitor : InterruptEvents → InterruptEvents → InterruptEvents
bitor a b = record { bits = bit_or a.bits b.bits }

unfoldable pub contains : InterruptEvents → InterruptEvents → Bool
contains set event = bit_and set.bits event.bits == event.bits

abbrev pub is_empty : InterruptEvents → Bool
is_empty set = set.bits == 0

unfoldable pub from_status_bits : ℕ → InterruptEvents
from_status_bits bits = record { bits = bit_and bits valid_interrupt_mask }

pub record InterruptSnapshot : Type 0 where
  pub raw : ℕ

unfoldable pub events : InterruptSnapshot → InterruptEvents
unfolding from_status_bits
events snapshot = from_status_bits snapshot.raw

unfoldable pub has : InterruptSnapshot → InterruptEvents → Bool
unfolding events
has snapshot event = contains (events snapshot) event

unfoldable pub read_interrupt_status :
    Memory → GpuRegisterBlock → Outcome RegisterBlockError InterruptSnapshot
read_interrupt_status memory block = do
  raw ← Registers.read read_only_readable memory block Registers.int_status
  ok (record { raw = raw })

unfoldable pub ack_interrupts :
    Memory → GpuRegisterBlock → InterruptEvents → Memory × Outcome RegisterBlockError (Unit {0})
ack_interrupts memory block acknowledged =
    Registers.write write_only_writable memory block Registers.int_ack acknowledged.bits

-- `InterruptController`, which has no state: `pending` and `ack`.
unfoldable pub pending : Memory → GpuRegisterBlock → Outcome InterruptError InterruptSnapshot
unfolding read_interrupt_status
pending memory block = map_err register (read_interrupt_status memory block)

unfoldable pub ack :
    Memory → GpuRegisterBlock → InterruptEvents → Memory × Outcome InterruptError (Unit {0})
unfolding ack_interrupts
ack memory block acknowledged =
    let (written, result) = ack_interrupts memory block acknowledged in
    (written, map_err register result)
