-- ===== src/UnitTests/InterruptEvents.antt =====
-- src/interrupts.rs: its unit tests.
use rust_gpu_driver_lab.Base.{◌≡◌, refl, true, false, [], ◌∷◌, replicate}
use rust_gpu_driver_lab.Mmio
use rust_gpu_driver_lab.Registers
use rust_gpu_driver_lab.Interrupts.{
  InterruptSnapshot, none, command_complete, queue_fault, thermal_warning, firmware_fault, bitor,
  contains, is_empty, from_status_bits, events, has, read_interrupt_status, ack_interrupts, pending,
  ack,
}
use rust_gpu_driver_lab.UnitTests.{Unwrap, UnwrapCall}
use rust_gpu_driver_lab.UnitTests.Storage.{array, slice_of, word}

EventConstantsHaveCorrectBits : Type 0
EventConstantsHaveCorrectBits =
    (command_complete.bits ≡ 0b0001)
    × (queue_fault.bits ≡ 0b0010)
    × (thermal_warning.bits ≡ 0b0100)
    × (firmware_fault.bits ≡ 0b1000)

CombinedEventsAreValid : Type 0
CombinedEventsAreValid = (bitor command_complete queue_fault).bits ≡ 0b0011

ContainsSelectedEvents : Type 0
ContainsSelectedEvents =
    let events = bitor command_complete thermal_warning in
    (contains events command_complete ≡ true) × (contains events queue_fault ≡ false)

UnkownInterruptBitsAreFiltered : Type 0
UnkownInterruptBitsAreFiltered =
    let snapshot : InterruptSnapshot = record { raw = 0x80000001 } in
    ((events snapshot).bits ≡ 0b0001) × (snapshot.raw ≡ 0x80000001)

ReadPendingInterrupts : Type 0
ReadPendingInterrupts =
    let storage = 0 ∷ 0 ∷ 0 ∷ 0b0101 ∷ 0 ∷ [] in
    Unwrap (Registers.from_slice (slice_of storage)) λ block.
      Unwrap (read_interrupt_status (array storage) block)
        λ snapshot. (has snapshot command_complete ≡ true) × (has snapshot thermal_warning ≡ true)

AcknowledgeWritesExactEventMask : Type 0
AcknowledgeWritesExactEventMask =
    let storage = replicate 5 0 in
    Unwrap (Registers.from_slice (slice_of storage)) λ block.
      UnwrapCall (ack_interrupts (array storage) block (bitor command_complete queue_fault))
        λ m _. word m 4 ≡ 0b0011

SelectiveAcknowledgementIsExact : Type 0
SelectiveAcknowledgementIsExact =
    let storage = replicate 5 0 in
    Unwrap (Registers.from_slice (slice_of storage)) λ block.
      UnwrapCall (ack_interrupts (array storage) block thermal_warning) λ m _. word m 4 ≡ 0b0100

AcknowledgingNoneWritesZero : Type 0
AcknowledgingNoneWritesZero =
    let storage = replicate 5 0 in
    Unwrap (Registers.from_slice (slice_of storage))
      λ block. UnwrapCall (ack_interrupts (array storage) block none) λ m _. word m 4 ≡ 0

ControllerReadsPendingEvents : Type 0
ControllerReadsPendingEvents =
    let storage = 0 ∷ 0 ∷ 0 ∷ 0b0010 ∷ 0 ∷ [] in
    Unwrap (Registers.from_slice (slice_of storage))
      λ block. Unwrap (pending (array storage) block) λ pending. has pending queue_fault ≡ true

ControllerAcknowledgesEvents : Type 0
ControllerAcknowledgesEvents =
    let storage = replicate 5 0 in
    Unwrap (Registers.from_slice (slice_of storage))
      λ block. UnwrapCall (ack (array storage) block firmware_fault) λ m _. word m 4 ≡ 0b1000

EmptyInterruptEventSetIsDetected : Type 0
EmptyInterruptEventSetIsDetected = (is_empty none ≡ true) × (is_empty command_complete ≡ false)

-- Every test passes.
tests_pass :
    EventConstantsHaveCorrectBits × CombinedEventsAreValid × ContainsSelectedEvents
    × UnkownInterruptBitsAreFiltered × ReadPendingInterrupts × AcknowledgeWritesExactEventMask
    × SelectiveAcknowledgementIsExact × AcknowledgingNoneWritesZero × ControllerReadsPendingEvents
    × ControllerAcknowledgesEvents × EmptyInterruptEventSetIsDetected
unfolding EventConstantsHaveCorrectBits CombinedEventsAreValid ContainsSelectedEvents
    UnkownInterruptBitsAreFiltered ReadPendingInterrupts AcknowledgeWritesExactEventMask
    SelectiveAcknowledgementIsExact AcknowledgingNoneWritesZero ControllerReadsPendingEvents
    ControllerAcknowledgesEvents EmptyInterruptEventSetIsDetected bitor contains from_status_bits
    events has read_interrupt_status ack_interrupts pending ack Registers.from_slice
    Registers.check_register_len Registers.read Registers.write Mmio.from_slice Mmio.read Mmio.write
    Mmio.check_index
tests_pass = (
  (refl, refl, refl, refl),
  refl,
  (refl, refl),
  (refl, refl),
  (refl, refl),
  refl,
  refl,
  refl,
  refl,
  refl,
  (refl, refl),
)
