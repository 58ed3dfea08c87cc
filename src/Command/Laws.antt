-- ===== src/Command/Laws.antt =====
-- src/command.rs: what validation accepts, and what a validated command guarantees.
use rust_gpu_driver_lab.Base.{
  ◌+◌, ◌%◌, ◌≤◌, ◌<◌, ◌≡◌, ◌≢◌, ◌↔◌, arith, returns, ok, err, panic, usize_max,
}
use rust_gpu_driver_lab.Command.{
  CommandError, RawCommand, ValidatedCommand, range_end, try_from, alignment, max_priority,
  zero_command_id, misaligned_offset, zero_length, range_overflow, invalid_priority,
}

-- What the fields of a raw command must satisfy.
pub record IsAcceptable (raw : RawCommand) : Type 0 where
  pub id_nonzero : raw.id ≢ 0
  pub aligned : raw.offset % alignment ≡ 0
  pub length_nonzero : raw.length ≢ 0
  pub no_overflow : raw.offset + raw.length ≤ usize_max
  pub priority_bound : raw.priority ≤ max_priority

-- What a validated command promises to the layers above.
pub record IsWellFormed (c : ValidatedCommand) : Type 0 where
  pub id_nonzero : c.id ≢ 0
  pub aligned : c.range.offset % alignment ≡ 0
  pub length_nonzero : c.range.length ≢ 0
  pub no_overflow : c.range.offset + c.range.length ≤ usize_max
  pub priority_bound : c.priority ≤ max_priority

abbrev pub validated : RawCommand → ValidatedCommand
validated raw = record {
  id = raw.id;
  range = record { offset = raw.offset; length = raw.length };
  priority = raw.priority;
}

-- A raw command is accepted exactly if its identifier and its length are not zero, its offset is
-- aligned, its range does not overflow and its priority is in bounds; the command then has its values.
pub try_from_iff :
    (raw : RawCommand) (c : ValidatedCommand)
    → (try_from raw ≡ ok c) ↔ (IsAcceptable raw × (c ≡ validated raw))
unfolding try_from
try_from_iff raw c = ground arith

pub try_from-IsWellFormed :
    (raw : RawCommand) {c : ValidatedCommand} → try_from raw ≡ ok c → IsWellFormed c
unfolding try_from
try_from-IsWellFormed raw e = ground arith

pub range_end-returns :
    (c : ValidatedCommand)
    → IsWellFormed c
    → range_end c.range ≡ returns (c.range.offset + c.range.length)
unfolding range_end
range_end-returns c w = ground arith

-- The error is that of the first failing check: id, alignment, length, overflow, priority.
abbrev pub FirstFault : RawCommand → CommandError → Type 0
FirstFault raw zero_command_id = raw.id ≡ 0
FirstFault raw (misaligned_offset o a) =
    (raw.id ≢ 0) × (raw.offset % alignment ≢ 0) × (o ≡ raw.offset) × (a ≡ alignment)
FirstFault raw zero_length = (raw.id ≢ 0) × (raw.offset % alignment ≡ 0) × (raw.length ≡ 0)
FirstFault raw (range_overflow o l) =
    (raw.id ≢ 0)
    × (raw.offset % alignment ≡ 0)
    × (raw.length ≢ 0)
    × (usize_max < raw.offset + raw.length)
    × (o ≡ raw.offset)
    × (l ≡ raw.length)
FirstFault raw (invalid_priority f lo hi) =
    (raw.id ≢ 0)
    × (raw.offset % alignment ≡ 0)
    × (raw.length ≢ 0)
    × (raw.offset + raw.length ≤ usize_max)
    × (max_priority < raw.priority)
    × (f ≡ raw.priority)
    × (lo ≡ 0)
    × (hi ≡ max_priority)

-- Validation returns an error exactly if that error is the one of the first check that fails, in the
-- order identifier, alignment, length, overflow, priority, and it carries the offending values.
pub try_from-err_iff :
    (raw : RawCommand) (e : CommandError) → (try_from raw ≡ err e) ↔ FirstFault raw e
unfolding try_from
try_from-err_iff raw zero_command_id = ground arith
try_from-err_iff raw zero_length = ground arith
try_from-err_iff raw (misaligned_offset o a) = ground arith
try_from-err_iff raw (range_overflow o l) = ground arith
try_from-err_iff raw (invalid_priority f lo hi) = ground arith

pub try_from-ne-panic : (raw : RawCommand) → try_from raw ≢ panic
unfolding try_from
try_from-ne-panic raw = ground arith
