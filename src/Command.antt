-- ===== src/Command.antt =====
-- src/command.rs: identifiers, priorities and byte ranges of a command, and their validation.
-- A newtype stands for the number that it wraps.
pub mod Laws
use rust_gpu_driver_lab.Base.{
  ℕ, ◌+◌, Bool, true, false, not, ◌&&◌, ◌==◌, leb, if◌then◌else◌, Run, Outcome, ok, err, ◌>>=◌,
  ◌>>◌, ok_or, checked_add, add_usize, usize_max, is_multiple_of,
}

abbrev pub CommandId : Type 0
CommandId = ℕ

abbrev pub Priority : Type 0
Priority = ℕ

pub data CommandError : Type 0 where
  zero_command_id : CommandError
  zero_length : CommandError
  misaligned_offset : (offset required_alignment : ℕ) → CommandError
  range_overflow : (offset length : ℕ) → CommandError
  invalid_priority : (found minimum maximum : ℕ) → CommandError

-- `CommandId::new`.
unfoldable pub new_command_id : ℕ → Outcome CommandError CommandId
new_command_id raw = if raw == 0 then err zero_command_id else ok raw

-- `Priority::MIN` and `Priority::MAX`.
abbrev pub min_priority : ℕ
min_priority = 0

abbrev pub max_priority : ℕ
max_priority = 3

-- `Priority::new`, which `Priority::try_from` calls.
unfoldable pub new_priority : ℕ → Outcome CommandError Priority
new_priority raw =
    if not (leb min_priority raw && leb raw max_priority)
    then err (invalid_priority raw min_priority max_priority)
    else ok raw

pub record CommandRange : Type 0 where
  pub offset : ℕ
  pub length : ℕ

-- `CommandRange::ALIGNMENT`.
abbrev pub alignment : ℕ
alignment = 4

-- `CommandRange::new`.
unfoldable pub new_range : ℕ → ℕ → Outcome CommandError CommandRange
new_range offset length =
    if not (is_multiple_of offset alignment)
    then err (misaligned_offset offset alignment)
    else if length == 0
    then err zero_length
    else do
      ok_or (checked_add usize_max offset length) (range_overflow offset length)
      ok (record { offset = offset; length = length })

-- `CommandRange::end`: an unchecked addition.
unfoldable pub range_end : CommandRange → Run ℕ
range_end range = add_usize range.offset range.length

pub record RawCommand : Type 0 where
  pub id : ℕ
  pub offset : ℕ
  pub length : ℕ
  pub priority : ℕ

pub record ValidatedCommand : Type 0 where
  pub id : CommandId
  pub range : CommandRange
  pub priority : Priority

-- `ValidatedCommand::try_from`.
unfoldable pub try_from : RawCommand → Outcome CommandError ValidatedCommand
unfolding new_command_id new_range new_priority
try_from raw = do
  id ← new_command_id raw.id
  range ← new_range raw.offset raw.length
  priority ← new_priority raw.priority
  ok (record { id = id; range = range; priority = priority })
