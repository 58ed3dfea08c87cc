-- ===== src/RegisterFile/Cells.antt =====
-- The abstract register file: one word for each of the five registers, and no addresses or errors.
use rust_gpu_driver_lab.Base.{ℕ, ◌==◌, if◌then◌else◌, List, [], ◌∷◌, ok}
use rust_gpu_driver_lab.RegisterFile.{
  Event, Reply, read_control, write_control, modify_control, read_status, issue_command, pending,
  ack, device_status, device_int_status, finished, controlled, reported, interrupted, acknowledged,
  nothing,
}

pub record Cells : Type 0 where
  pub control : ℕ
  pub status : ℕ
  pub command : ℕ
  pub int_status : ℕ
  pub int_ack : ℕ

-- A word stored to the register of this index.
abbrev pub stored : (index value : ℕ) → Cells → Cells
stored index value c = record {
  control = if 0 == index then value else c.control;
  status = if 1 == index then value else c.status;
  command = if 2 == index then value else c.command;
  int_status = if 3 == index then value else c.int_status;
  int_ack = if 4 == index then value else c.int_ack;
}

unfoldable pub step : Cells → Event → Cells × Reply
step c read_control = (c, controlled (ok (record { raw = c.control })))
step c (write_control value) = (stored 0 value.raw c, finished (ok tt))
step c (modify_control update) =
    let updated = update (record { raw = c.control }) in
    (stored 0 updated.raw c, controlled (ok updated))
step c read_status = (c, reported (ok (record { raw = c.status })))
step c (issue_command word) = (stored 2 word.raw c, finished (ok tt))
step c pending = (c, interrupted (ok (record { raw = c.int_status })))
step c (ack events) = (stored 4 events.bits c, acknowledged (ok tt))
step c (device_status word) = (stored 1 word c, nothing)
step c (device_int_status word) = (stored 3 word c, nothing)

unfoldable pub finally : Cells → List Event → Cells
finally c [] = c
finally c (e ∷ es) = finally (step c e).0 es

unfoldable pub run : Cells → List Event → List Reply
run c [] = []
run c (e ∷ es) = (step c e).1 ∷ run (step c e).0 es
