-- ===== src/UnitTests/Commands.antt =====
-- src/command.rs: its unit tests.
use rust_gpu_driver_lab.Base.{◌-◌, ◌≡◌, refl, Outcome, err, returns, usize_max}
use rust_gpu_driver_lab.Command.{
  RawCommand, ValidatedCommand, CommandError, zero_command_id, zero_length, misaligned_offset,
  range_overflow, invalid_priority, try_from, range_end, new_priority, min_priority, max_priority,
}
use rust_gpu_driver_lab.UnitTests.{Unwrap}

abbrev valid_raw_command : RawCommand
valid_raw_command = record { id = 1; offset = 8; length = 16; priority = 2 }

-- `RawCommand::default()`, which derives the default of every field.
abbrev default_raw_command : RawCommand
default_raw_command = record { id = 0; offset = 0; length = 0; priority = 0 }

abbrev Refused : RawCommand → CommandError → Type 0
Refused raw e = ◌≡◌ {A = Outcome CommandError ValidatedCommand} (try_from raw) (err e)

ValidRawCommandIsConverted : Type 0
ValidRawCommandIsConverted = Unwrap (try_from valid_raw_command) λ command.
    (command.id ≡ 1)
    × (command.range.offset ≡ 8)
    × (command.range.length ≡ 16)
    × (range_end command.range ≡ returns 24)
    × (command.priority ≡ 2)

ValidatedRawCommandWithIncompleteFields : Type 0
ValidatedRawCommandWithIncompleteFields = Refused default_raw_command zero_command_id

ZeroCommandIdIsRejected : Type 0
ZeroCommandIdIsRejected = Refused (record valid_raw_command { id = 0 }) zero_command_id

ZeroLengthIsRejected : Type 0
ZeroLengthIsRejected = Refused (record valid_raw_command { length = 0 }) zero_length

MisalignedOffsetIsRejected : Type 0
MisalignedOffsetIsRejected =
    Refused (record valid_raw_command { offset = 6 }) (misaligned_offset 6 4)

OverflowingRangeIsRejected : Type 0
OverflowingRangeIsRejected =
    Refused (record valid_raw_command { offset = usize_max - 3; length = 8 })
      (range_overflow (usize_max - 3) 8)

InvalidPriorityIsRejected : Type 0
InvalidPriorityIsRejected =
    Refused (record valid_raw_command { priority = 4 }) (invalid_priority 4 0 3)

PriorityBoundariesAreValid : Type 0
PriorityBoundariesAreValid =
    (Unwrap (new_priority 0) λ priority. priority ≡ 0)
    × (Unwrap (new_priority 3) λ priority. priority ≡ 3)

MaximumU8PriorityIsRejected : Type 0
MaximumU8PriorityIsRejected =
    new_priority 255 ≡ err (invalid_priority 255 min_priority max_priority)

-- Every test passes.
tests_pass :
    ValidRawCommandIsConverted × ValidatedRawCommandWithIncompleteFields × ZeroCommandIdIsRejected
    × ZeroLengthIsRejected × MisalignedOffsetIsRejected × OverflowingRangeIsRejected
    × InvalidPriorityIsRejected × PriorityBoundariesAreValid × MaximumU8PriorityIsRejected
unfolding ValidRawCommandIsConverted ValidatedRawCommandWithIncompleteFields ZeroCommandIdIsRejected
    ZeroLengthIsRejected MisalignedOffsetIsRejected OverflowingRangeIsRejected
    InvalidPriorityIsRejected PriorityBoundariesAreValid MaximumU8PriorityIsRejected try_from
    range_end new_priority
tests_pass =
    ((refl, refl, refl, refl, refl), refl, refl, refl, refl, refl, refl, (refl, refl), refl)
