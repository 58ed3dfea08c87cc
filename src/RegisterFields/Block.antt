-- ===== src/RegisterFields/Block.antt =====
-- src/register_fields.rs: what the accessors of fields do to the registers of an accepted block.
use rust_gpu_driver_lab.Base.{◌≡◌, arith, refl, ◌==◌, if◌then◌else◌, ok}
use rust_gpu_driver_lab.Mmio.{Memory}
use rust_gpu_driver_lab.Registers.{
  Access, Register, GpuRegisterBlock, control, status, command, read_write_readable,
  read_only_readable, read_write_writable, write_only_writable,
}
use rust_gpu_driver_lab.Registers.Laws.{IsBlock, held, read_ok, write_ok, held-write}
use rust_gpu_driver_lab.RegisterFields.{
  ControlValue, CommandWord, read_control, write_control, modify_control, read_status,
  issue_command,
}

pub read_status_ok :
    (m : Memory) (b : GpuRegisterBlock)
    → IsBlock b
    → read_status m b ≡ ok (record { raw = held m b status })
unfolding read_status
read_status_ok m b h = ground (arith, read_ok m b h read_only_readable status)

-- On an accepted block modifying CONTROL returns the update of what it held and leaves that in it, and
-- no other register of the device changes.
pub modify_control_lem :
    (m : Memory) (b : GpuRegisterBlock) (update : ControlValue → ControlValue) {a : Access}
    (s : Register a)
    → IsBlock b
    → let updated = update (record { raw = held m b control }) in
      ((modify_control m b update).1 ≡ ok updated)
      × (held (modify_control m b update).0 b s
          ≡ (if control.index == s.index then updated.raw else held m b s))
unfolding modify_control read_control write_control
modify_control_lem m b update s h =
    let current = read_ok m b h read_write_readable control (omega arith) in
    let updated = update (record { raw = held m b control }) in
    let stored = write_ok m b h read_write_writable control updated.raw (omega arith) in
    rw (current, stored) (refl, ground arith)

-- On an accepted block issuing a command writes its word to COMMAND, and no other register of the
-- device changes.
pub held-issue_command :
    (m : Memory) (b : GpuRegisterBlock) (w : CommandWord) {a : Access} (s : Register a)
    → IsBlock b
    → ((issue_command m b w).1 ≡ ok tt)
      × (held (issue_command m b w).0 b s
          ≡ (if command.index == s.index then w.raw else held m b s))
unfolding issue_command
held-issue_command m b w s h = held-write m b write_only_writable command s w.raw h (omega arith)
