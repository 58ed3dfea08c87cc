-- ===== src/RegisterFile.antt =====
-- src/registers.rs, src/register_fields.rs, src/interrupts.rs: every public accessor of a block of
-- registers, and what its caller sees, over sequences of calls. The device may store to its STATUS
-- and INT_STATUS registers between two calls.
pub mod Cells
pub mod Refines
use rust_gpu_driver_lab.Base.{ℕ, List, [], ◌∷◌, Outcome}
use rust_gpu_driver_lab.Mmio.{Memory, register_address, stored}
use rust_gpu_driver_lab.Registers
use rust_gpu_driver_lab.Registers.{GpuRegisterBlock, RegisterBlockError}
use rust_gpu_driver_lab.RegisterFields
use rust_gpu_driver_lab.RegisterFields.{ControlValue, StatusSnapshot, CommandWord}
use rust_gpu_driver_lab.Interrupts
use rust_gpu_driver_lab.Interrupts.{InterruptEvents, InterruptSnapshot, InterruptError}

pub data Event : Type 0 where
  read_control : Event
  write_control : ControlValue → Event
  modify_control : (ControlValue → ControlValue) → Event
  read_status : Event
  issue_command : CommandWord → Event
  pending : Event
  ack : InterruptEvents → Event
  device_status : ℕ → Event
  device_int_status : ℕ → Event

pub data Reply : Type 0 where
  finished : Outcome RegisterBlockError (Unit {0}) → Reply
  controlled : Outcome RegisterBlockError ControlValue → Reply
  reported : Outcome RegisterBlockError StatusSnapshot → Reply
  interrupted : Outcome InterruptError InterruptSnapshot → Reply
  acknowledged : Outcome InterruptError (Unit {0}) → Reply
  nothing : Reply

module _ (block : GpuRegisterBlock) where
  unfoldable pub step : Memory → Event → Memory × Reply
  step m read_control = (m, controlled (RegisterFields.read_control m block))
  step m (write_control value) =
      let (after, r) = RegisterFields.write_control m block value in (after, finished r)
  step m (modify_control update) =
      let (after, r) = RegisterFields.modify_control m block update in (after, controlled r)
  step m read_status = (m, reported (RegisterFields.read_status m block))
  step m (issue_command word) =
      let (after, r) = RegisterFields.issue_command m block word in (after, finished r)
  step m pending = (m, interrupted (Interrupts.pending m block))
  step m (ack events) = let (after, r) = Interrupts.ack m block events in (after, acknowledged r)
  step m (device_status word) =
      (stored m (register_address block.mmio Registers.status.index) word, nothing)
  step m (device_int_status word) =
      (stored m (register_address block.mmio Registers.int_status.index) word, nothing)

  -- The memory after the last event.
  unfoldable pub finally : Memory → List Event → Memory
  finally m [] = m
  finally m (e ∷ es) = finally (step m e).0 es

  -- What the caller sees of each event in turn.
  unfoldable pub run : Memory → List Event → List Reply
  run m [] = []
  run m (e ∷ es) = (step m e).1 ∷ run (step m e).0 es
