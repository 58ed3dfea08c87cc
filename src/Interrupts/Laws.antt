-- ===== src/Interrupts/Laws.antt =====
-- src/interrupts.rs: sets of events, and what an acknowledgement writes.
use Prim.Native.Nat.{bit_and, bit_or}
use rust_gpu_driver_lab.Base.{ℕ, ◌/◌, ◌%◌, ◌<◌, ◌≡◌, arith, ◌||◌, ◌==◌, if◌then◌else◌, ok}
use rust_gpu_driver_lab.Base.Bits.{
  bit_and-1, bit_and-2, bit_and-4, bit_and-8, bit_and-15, bit_or_step,
}
use rust_gpu_driver_lab.Mmio.{Memory}
use rust_gpu_driver_lab.Registers.{
  Access, Register, GpuRegisterBlock, int_status, int_ack, read_only_readable, write_only_writable,
}
use rust_gpu_driver_lab.Registers.Laws.{IsBlock, held, read_ok, held-write}
use rust_gpu_driver_lab.Interrupts
use rust_gpu_driver_lab.Interrupts.{
  InterruptEvents, InterruptSnapshot, command_complete, queue_fault, thermal_warning,
  firmware_fault, bitor, contains, from_status_bits, events, has, pending, ack,
}

-- The sets that can be built outside the crate.
abbrev pub IsValid : InterruptEvents → Type 0
IsValid e = e.bits < 16

pub from_status_bits-IsValid : (bits : ℕ) → IsValid (from_status_bits bits)
unfolding from_status_bits
from_status_bits-IsValid bits = omega (arith, bit_and-15 bits)

-- The four events.
pub data IsEvent : InterruptEvents → Type 0 where
  command_complete_event : IsEvent command_complete
  queue_fault_event : IsEvent queue_fault
  thermal_warning_event : IsEvent thermal_warning
  firmware_fault_event : IsEvent firmware_fault

-- A union of two sets contains an event exactly if one of the sets does.
pub contains-bitor :
    (a b : InterruptEvents) {e : InterruptEvents}
    → IsEvent e
    → contains (bitor a b) e ≡ (contains a e || contains b e)
unfolding contains bitor
contains-bitor a b command_complete_event = ground (
  arith,
  bit_and-1 (bit_or a.bits b.bits),
  bit_and-1 a.bits,
  bit_and-1 b.bits,
  bit_or_step a.bits b.bits,
)
contains-bitor a b queue_fault_event = ground (
  arith,
  bit_and-2 (bit_or a.bits b.bits),
  bit_and-2 a.bits,
  bit_and-2 b.bits,
  bit_or_step a.bits b.bits,
  bit_or_step (a.bits / 2) (b.bits / 2),
)
contains-bitor a b thermal_warning_event = ground (
  arith,
  bit_and-4 (bit_or a.bits b.bits),
  bit_and-4 a.bits,
  bit_and-4 b.bits,
  bit_or_step a.bits b.bits,
  bit_or_step (a.bits / 2) (b.bits / 2),
  bit_or_step (a.bits / 2 / 2) (b.bits / 2 / 2),
)
contains-bitor a b firmware_fault_event = ground (
  arith,
  bit_and-8 (bit_or a.bits b.bits),
  bit_and-8 a.bits,
  bit_and-8 b.bits,
  bit_or_step a.bits b.bits,
  bit_or_step (a.bits / 2) (b.bits / 2),
  bit_or_step (a.bits / 2 / 2) (b.bits / 2 / 2),
  bit_or_step (a.bits / 2 / 2 / 2) (b.bits / 2 / 2 / 2),
)

-- A snapshot has an event exactly if the raw word has its bit: masking the unknown bits of the word
-- loses none of the four events.
pub has_lem :
    (s : InterruptSnapshot) {e : InterruptEvents}
    → IsEvent e
    → has s e ≡ contains (record { bits = s.raw }) e
unfolding has events from_status_bits contains
has_lem s command_complete_event =
    ground (arith, bit_and-15 s.raw, bit_and-1 s.raw, bit_and-1 (bit_and s.raw 15))
has_lem s queue_fault_event =
    ground (arith, bit_and-15 s.raw, bit_and-2 s.raw, bit_and-2 (bit_and s.raw 15))
has_lem s thermal_warning_event =
    ground (arith, bit_and-15 s.raw, bit_and-4 s.raw, bit_and-4 (bit_and s.raw 15))
has_lem s firmware_fault_event =
    ground (arith, bit_and-15 s.raw, bit_and-8 s.raw, bit_and-8 (bit_and s.raw 15))

pub pending_lem :
    (m : Memory) (b : GpuRegisterBlock)
    → IsBlock b
    → pending m b ≡ ok (record { raw = held m b int_status })
unfolding pending Interrupts.read_interrupt_status
pending_lem m b h = ground (arith, read_ok m b h read_only_readable int_status)

-- On an accepted block the pending interrupts are the INT_STATUS word, and acknowledging their events
-- leaves in INT_ACK the four lowest bits of that word and changes no other register of the device.
pub ack-pending :
    (m : Memory) (b : GpuRegisterBlock) {a : Access} (r : Register a)
    → IsBlock b
    → let seen : InterruptSnapshot = record { raw = held m b int_status } in
      (pending m b ≡ ok seen)
      × ((ack m b (events seen)).1 ≡ ok tt)
      × (held (ack m b (events seen)).0 b r
          ≡ (if int_ack.index == r.index then held m b int_status % 16 else held m b r))
unfolding ack Interrupts.ack_interrupts events from_status_bits
ack-pending m b r h =
    let word = held m b int_status in
    let written = held-write m b write_only_writable int_ack r (bit_and word 15) h (omega arith) in
    (pending_lem m b h, ground (arith, written), ground (arith, written, bit_and-15 word))
