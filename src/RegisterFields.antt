-- ===== src/RegisterFields.antt =====
-- src/register_fields.rs: the fields of the CONTROL, STATUS and COMMAND registers.
pub mod Laws
pub mod Block
use rust_gpu_driver_lab.Base.{
  ℕ, zero, suc, ◌%◌, ◌^◌, Bool, not, ◌==◌, if◌then◌else◌, Run, returns, panicked, Outcome, ok, err,
  panic, ◌>>=◌,
}
use Prim.Native.Nat.{bit_and, bit_or}
use rust_gpu_driver_lab.Base.Bits.{complement, shift_left, shift_right}
use rust_gpu_driver_lab.Mmio.{Memory}
use rust_gpu_driver_lab.Registers
use rust_gpu_driver_lab.Registers.{
  GpuRegisterBlock, RegisterBlockError, read_write_readable, read_only_readable,
  read_write_writable, write_only_writable,
}

pub data PowerMode : Type 0 where
  idle low_power normal performance : PowerMode

-- The `match` of `PowerMode::from`, whose last arm is `unreachable!()`.
abbrev pub of_two_bits : ℕ → Run PowerMode
of_two_bits zero = returns idle
of_two_bits (suc zero) = returns low_power
of_two_bits (suc (suc zero)) = returns normal
of_two_bits (suc (suc (suc zero))) = returns performance
of_two_bits (suc (suc (suc (suc n)))) = panicked

abbrev pub from : ℕ → Run PowerMode
from bits = of_two_bits (bit_and bits 3)

abbrev pub mode_bits : PowerMode → ℕ
mode_bits idle = 0
mode_bits low_power = 1
mode_bits normal = 2
mode_bits performance = 3

abbrev pub enable_mask : ℕ
enable_mask = 1

abbrev pub irq_enable_mask : ℕ
irq_enable_mask = 8

abbrev pub power_mode_mask : ℕ
power_mode_mask = 6

abbrev pub power_mode_shift : ℕ
power_mode_shift = 1

pub record ControlValue : Type 0 where
  pub raw : ℕ

abbrev pub from_raw : ℕ → ControlValue
from_raw raw = record { raw = raw }

-- Whether a mask has a bit in common with the word.
abbrev pub is_set : (word mask : ℕ) → Bool
is_set word mask = not (bit_and word mask == 0)

-- A word with the bits of a mask set or cleared.
abbrev pub with_bit : (word mask : ℕ) → Bool → ℕ
with_bit word mask on = if on then bit_or word mask else bit_and word (complement mask)

unfoldable pub enabled : ControlValue → Bool
enabled c = is_set c.raw enable_mask

unfoldable pub irq_enabled : ControlValue → Bool
irq_enabled c = is_set c.raw irq_enable_mask

unfoldable pub power_mode : ControlValue → Run PowerMode
power_mode c = from (shift_right (bit_and c.raw power_mode_mask) power_mode_shift)

unfoldable pub with_enabled : ControlValue → Bool → ControlValue
with_enabled c on = record { raw = with_bit c.raw enable_mask on }

unfoldable pub with_irq_enabled : ControlValue → Bool → ControlValue
with_irq_enabled c on = record { raw = with_bit c.raw irq_enable_mask on }

unfoldable pub with_power_mode : ControlValue → PowerMode → ControlValue
with_power_mode c mode = record {
  raw =
      bit_or (bit_and c.raw (complement power_mode_mask))
        (bit_and (shift_left (mode_bits mode) power_mode_shift) power_mode_mask);
}

unfoldable pub read_control : Memory → GpuRegisterBlock → Outcome RegisterBlockError ControlValue
read_control memory block = do
  raw ← Registers.read read_write_readable memory block Registers.control
  ok (from_raw raw)

unfoldable pub write_control :
    Memory → GpuRegisterBlock → ControlValue → Memory × Outcome RegisterBlockError (Unit {0})
write_control memory block value =
    Registers.write read_write_writable memory block Registers.control value.raw

-- What `modify_control` does after its read. `update` is the caller's closure.
abbrev pub modify_with :
    Memory
    → GpuRegisterBlock
    → (ControlValue → ControlValue)
    → Outcome RegisterBlockError ControlValue
    → Memory × Outcome RegisterBlockError ControlValue
modify_with memory block update (ok current) =
    let (written, result) = write_control memory block (update current) in
    (written, (result >>= λ u. ok (update current)))
modify_with memory block update (err e) = (memory, err e)
modify_with memory block update panic = (memory, panic)

unfoldable pub modify_control :
    Memory
    → GpuRegisterBlock
    → (ControlValue → ControlValue)
    → Memory × Outcome RegisterBlockError ControlValue
modify_control memory block update = modify_with memory block update (read_control memory block)

pub record StatusSnapshot : Type 0 where
  pub raw : ℕ

abbrev pub ready : StatusSnapshot → Bool
ready s = is_set s.raw 1

abbrev pub busy : StatusSnapshot → Bool
busy s = is_set s.raw 2

abbrev pub fault : StatusSnapshot → Bool
fault s = is_set s.raw 4

unfoldable pub read_status : Memory → GpuRegisterBlock → Outcome RegisterBlockError StatusSnapshot
read_status memory block = do
  raw ← Registers.read read_only_readable memory block Registers.status
  ok (record { raw = raw })

pub data CommandOpCode : Type 0 where
  kick flush reset : CommandOpCode

abbrev pub opcode : CommandOpCode → ℕ
opcode kick = 1
opcode flush = 2
opcode reset = 3

abbrev pub opcode_mask : ℕ
opcode_mask = 15

abbrev pub queue_shift : ℕ
queue_shift = 8

-- `0xFF << 8`.
abbrev pub queue_mask : ℕ
queue_mask = 65280

pub record CommandWord : Type 0 where
  pub raw : ℕ

unfoldable pub new_word : CommandOpCode → ℕ → CommandWord
new_word op queue_id = record {
  raw = bit_or (bit_and (opcode op) opcode_mask) (shift_left queue_id queue_shift);
}

-- The cast to `u8` keeps the lowest byte.
unfoldable pub queue_id : CommandWord → ℕ
queue_id w = shift_right (bit_and w.raw queue_mask) queue_shift % 2 ^ 8

unfoldable pub opcode_bits : CommandWord → ℕ
opcode_bits w = bit_and w.raw opcode_mask

unfoldable pub issue_command :
    Memory → GpuRegisterBlock → CommandWord → Memory × Outcome RegisterBlockError (Unit {0})
issue_command memory block command =
    Registers.write write_only_writable memory block Registers.command command.raw
