-- ===== src/UnitTests/Fields.antt =====
-- src/register_fields.rs: its unit tests.
use rust_gpu_driver_lab.Base.{◌≡◌, refl, true, false, [], ◌∷◌, replicate, returns}
use rust_gpu_driver_lab.Mmio
use rust_gpu_driver_lab.Registers
use rust_gpu_driver_lab.RegisterFields.{
  StatusSnapshot, low_power, normal, performance, from_raw, enabled, irq_enabled, power_mode,
  with_enabled, with_irq_enabled, with_power_mode, read_control, write_control, modify_control,
  ready, busy, fault, read_status, kick, flush, new_word, opcode_bits, queue_id, issue_command,
}
use rust_gpu_driver_lab.UnitTests.{Unwrap, UnwrapCall}
use rust_gpu_driver_lab.UnitTests.Storage.{array, slice_of, word, words_from}

ControlFieldsAreDecoded : Type 0
ControlFieldsAreDecoded =
    let control = from_raw 0b1011 in
    (enabled control ≡ true)
    × (irq_enabled control ≡ true)
    × (power_mode control ≡ returns low_power)

PowerModeCanBeChanged : Type 0
PowerModeCanBeChanged = power_mode (with_power_mode (from_raw 0) performance) ≡ returns performance

ControlUpdatesPreserveReservedBits : Type 0
ControlUpdatesPreserveReservedBits =
    (with_irq_enabled (with_enabled (from_raw 0x80000000) true) true).raw ≡ 0x80000009

DisablingIrqPreservesOtherFields : Type 0
DisablingIrqPreservesOtherFields = (with_irq_enabled (from_raw 0x8000000F) false).raw ≡ 0x80000007

ModifyControlPreservesExistingBits : Type 0
ModifyControlPreservesExistingBits =
    let storage = 0x80000000 ∷ 0 ∷ 0 ∷ 0 ∷ 0 ∷ [] in
    Unwrap (Registers.from_slice (slice_of storage)) λ block.
      UnwrapCall
        (modify_control (array storage) block
          λ control. with_power_mode (with_enabled control true) normal)
        λ m updated.
          (enabled updated ≡ true) × (power_mode updated ≡ returns normal) × (word m 0 ≡ 0x80000005)

StatusSnapshotDecodesFlags : Type 0
StatusSnapshotDecodesFlags =
    let status : StatusSnapshot = record { raw = 0b0101 } in
    (ready status ≡ true) × (busy status ≡ false) × (fault status ≡ true)

RegisterBlockReadsTypedStatus : Type 0
RegisterBlockReadsTypedStatus =
    let storage = 0 ∷ 0b0011 ∷ 0 ∷ 0 ∷ 0 ∷ [] in
    Unwrap (Registers.from_slice (slice_of storage)) λ block.
      Unwrap (read_status (array storage) block)
        λ status. (ready status ≡ true) × (busy status ≡ true) × (fault status ≡ false)

CommandWordEncodesFields : Type 0
CommandWordEncodesFields =
    let command = new_word kick 7 in
    (opcode_bits command ≡ 1) × (queue_id command ≡ 7) × (command.raw ≡ 0x00000701)

IssueCommandWritesCommandRegister : Type 0
IssueCommandWritesCommandRegister =
    let storage = replicate 5 0 in
    Unwrap (Registers.from_slice (slice_of storage)) λ block.
      UnwrapCall (issue_command (array storage) block (new_word flush 4))
        λ m _. words_from m 0 5 ≡ 0 ∷ 0 ∷ 0x00000402 ∷ 0 ∷ 0 ∷ []

-- Every test passes.
tests_pass :
    ControlFieldsAreDecoded × PowerModeCanBeChanged × ControlUpdatesPreserveReservedBits
    × DisablingIrqPreservesOtherFields × ModifyControlPreservesExistingBits
    × StatusSnapshotDecodesFlags × RegisterBlockReadsTypedStatus × CommandWordEncodesFields
    × IssueCommandWritesCommandRegister
unfolding ControlFieldsAreDecoded PowerModeCanBeChanged ControlUpdatesPreserveReservedBits
    DisablingIrqPreservesOtherFields ModifyControlPreservesExistingBits StatusSnapshotDecodesFlags
    RegisterBlockReadsTypedStatus CommandWordEncodesFields IssueCommandWritesCommandRegister enabled
    irq_enabled power_mode with_enabled with_irq_enabled with_power_mode read_control write_control
    modify_control read_status new_word opcode_bits queue_id issue_command Registers.from_slice
    Registers.check_register_len Registers.read Registers.write Mmio.from_slice Mmio.read Mmio.write
    Mmio.check_index
tests_pass = (
  (refl, refl, refl),
  refl,
  refl,
  refl,
  (refl, refl, refl),
  (refl, refl, refl),
  (refl, refl, refl),
  (refl, refl, refl),
  refl,
)
