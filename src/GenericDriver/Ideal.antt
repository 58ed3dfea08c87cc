-- ===== src/GenericDriver/Ideal.antt =====
-- What a driver promises, without a device or a queue to hold it: a controller, a memory and the list
-- of submissions that wait, the oldest first.
use rust_gpu_driver_lab.Base.{ℕ, List, [], ◌∷◌, length, ◌==◌, Outcome, ok, err, panic, map_err}
use rust_gpu_driver_lab.DeviceState as Controller
use rust_gpu_driver_lab.DeviceState.{DeviceController, FirmwareInfo, StateError}
use rust_gpu_driver_lab.Device.Memory
use rust_gpu_driver_lab.Device.Memory.{Memory}
use rust_gpu_driver_lab.Submission.{
  BufferInfo, SubmissionError, ValidatedSubmission, validate_submission,
}
use rust_gpu_driver_lab.Fifo
use rust_gpu_driver_lab.Fifo.{Refusal}
use rust_gpu_driver_lab.GenericDriver.{GenericDriverError, state, buffer, submission, queue}
use rust_gpu_driver_lab.GenericDriver.Traces.{
  Call, load_firmware, start, allocate_buffer, write_buffer, submit, next_submission,
  peek_submission, queued_len, is_queue_empty, is_queue_full, device_state, Reply, finished,
  allocated, handed_out, counted, answered, in_state,
}

-- Validation needs no more of a memory than how many cells of a space are valid.
instance abbrev pub memory_info : BufferInfo Memory
memory_info = record { initialized_len = Memory.valid_len }

pub record IdealDriver : Type 0 where
  pub controller : DeviceController
  pub memory : Memory
  pub waiting : List ValidatedSubmission

abbrev pub new : IdealDriver
new = record { controller = Controller.default; memory = Memory.empty; waiting = [] }

abbrev pub Answer : Type 0 → Type 0
Answer A = IdealDriver × Outcome (GenericDriverError Refusal) A

-- Nothing but the lifecycle happens before the device is ready.
abbrev pub gate : {A : Type 0} → Outcome StateError FirmwareInfo → IdealDriver → Answer A → Answer A
gate (ok info) d rest = rest
gate (err e) d rest = (d, err (state e))
gate panic d rest = (d, panic)

abbrev pub when_ready : {A : Type 0} → IdealDriver → Answer A → Answer A
when_ready d rest = gate (Controller.ensure_ready d.controller) d rest

module _ (capacity : ℕ) where
  abbrev pub wait : IdealDriver → Outcome SubmissionError ValidatedSubmission → Answer (Unit {0})
  wait d (ok s) =
      let (xs, r) = Fifo.enqueue capacity d.waiting s in
      (record d { waiting = xs }, map_err queue r)
  wait d (err e) = (d, err (submission e))
  wait d panic = (d, panic)

  unfoldable pub step : IdealDriver → Call → IdealDriver × Reply Refusal
  step d (load_firmware image) =
      let (c, r) = Controller.load_firmware d.controller image in
      (record d { controller = c }, finished (map_err state r))
  step d start =
      let (c, r) = Controller.start d.controller in
      (record d { controller = c }, finished (map_err state r))
  step d (allocate_buffer size) =
      let (e, r) = when_ready d (
        let (m, r) = Memory.allocate d.memory size in
        (record d { memory = m }, map_err buffer r)) in
      (e, allocated r)
  step d (write_buffer id xs) =
      let (e, r) =
        when_ready d (
          let (m, r) = Memory.write d.memory id xs in
          (record d { memory = m }, map_err buffer r)) in
      (e, finished r)
  step d (submit id command) =
      let (e, r) =
        when_ready d
          (wait d (validate_submission d.memory (record { buffer_id = id; command = command }))) in
      (e, finished r)
  step d next_submission =
      let (xs, o) = Fifo.dequeue d.waiting in (record d { waiting = xs }, handed_out o)
  step d peek_submission = (d, handed_out (Fifo.peek d.waiting))
  step d queued_len = (d, counted (length d.waiting))
  step d is_queue_empty = (d, answered (length d.waiting == 0))
  step d is_queue_full = (d, answered (length d.waiting == capacity))
  step d device_state = (d, in_state d.controller.state)

  unfoldable pub run : IdealDriver → List Call → List (Reply Refusal)
  run d [] = []
  run d (c ∷ cs) = (step d c).1 ∷ run (step d c).0 cs
