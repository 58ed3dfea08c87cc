-- ===== src/GenericDriver.antt =====
-- src/generic_driver.rs: the driver over any queue that implements the trait.
pub mod Gate
pub mod Invariant
pub mod Calls
pub mod Runs
pub mod Traces
pub mod Ideal
pub mod Agreement
pub mod Refines
pub mod Readiness
pub mod Observation
use rust_gpu_driver_lab.Base.{
  ℕ, Bool, List, Option, Run, returns, and_then, Outcome, ok, err, panic, map_err,
}
use rust_gpu_driver_lab.Command.{RawCommand}
use rust_gpu_driver_lab.DeviceState as Controller
use rust_gpu_driver_lab.DeviceState.{DeviceController, DeviceState, StateError, FirmwareInfo}
use rust_gpu_driver_lab.Device
use rust_gpu_driver_lab.Device.{GpuDevice}
use rust_gpu_driver_lab.Device.Buffer.{BufferId, DriverError}
use rust_gpu_driver_lab.Submission.{
  SubmissionError, SubmissionRequest, ValidatedSubmission, validate_submission, device_info,
}
use rust_gpu_driver_lab.QueueBackend.{SubmissionQueue}

pub data GenericDriverError (Q : Type 0) : Type 0 where
  state : StateError → GenericDriverError Q
  buffer : DriverError → GenericDriverError Q
  submission : SubmissionError → GenericDriverError Q
  queue : Q → GenericDriverError Q

pub record GenericGpuDriver (backend : SubmissionQueue) : Type 0 where
  pub controller : DeviceController
  pub device : GpuDevice
  pub queue : backend.Queue

module _ (backend : SubmissionQueue) where
  -- What a method that may fail returns.
  abbrev pub Answer : Type 0 → Type 0
  Answer A = GenericGpuDriver backend × Outcome (GenericDriverError backend.Error) A

  unfoldable pub new : backend.Queue → GenericGpuDriver backend
  new q = record { controller = Controller.default; device = Device.default; queue = q }

  unfoldable pub load_firmware : GenericGpuDriver backend → List ℕ → Answer (Unit {0})
  load_firmware d image =
      let (controller, result) = Controller.load_firmware d.controller image in
      (record d { controller = controller }, map_err GenericDriverError.state result)

  unfoldable pub start : GenericGpuDriver backend → Answer (Unit {0})
  start d =
      let (controller, result) = Controller.start d.controller in
      (record d { controller = controller }, map_err GenericDriverError.state result)

  -- `self.controller.ensure_ready()?;` and the rest of the method.
  abbrev pub gate :
      {A : Type 0}
      → Outcome StateError FirmwareInfo
      → GenericGpuDriver backend
      → Answer A
      → Answer A
  gate (ok info) d rest = rest
  gate (err e) d rest = (d, err (GenericDriverError.state e))
  gate panic d rest = (d, panic)

  abbrev pub when_ready : {A : Type 0} → GenericGpuDriver backend → Answer A → Answer A
  when_ready d rest = gate (Controller.ensure_ready d.controller) d rest

  unfoldable pub allocate_buffer : GenericGpuDriver backend → ℕ → Answer BufferId
  allocate_buffer d capacity = when_ready d (
      let (device, result) = Device.allocate_buffer d.device capacity in
      (record d { device = device }, map_err GenericDriverError.buffer result))

  unfoldable pub write_buffer : GenericGpuDriver backend → BufferId → List ℕ → Answer (Unit {0})
  write_buffer d id bytes = when_ready d (
      let (device, result) = Device.write_buffer d.device id bytes in
      (record d { device = device }, map_err GenericDriverError.buffer result))

  -- `submit` once the request has been validated, or not.
  abbrev pub enqueue_validated :
      GenericGpuDriver backend → Outcome SubmissionError ValidatedSubmission → Answer (Unit {0})
  enqueue_validated d (ok s) =
      let (q, result) = backend.enqueue d.queue s in
      (record d { queue = q }, map_err GenericDriverError.queue result)
  enqueue_validated d (err e) = (d, err (GenericDriverError.submission e))
  enqueue_validated d panic = (d, panic)

  unfoldable pub submit : GenericGpuDriver backend → BufferId → RawCommand → Answer (Unit {0})
  submit d buffer_id command = when_ready d (
      enqueue_validated d
        (validate_submission d.device (record { buffer_id = buffer_id; command = command })))

  unfoldable pub next_submission :
      GenericGpuDriver backend → Run (GenericGpuDriver backend × Option ValidatedSubmission)
  next_submission d =
      and_then (backend.dequeue d.queue) λ (q, s). returns (record d { queue = q }, s)

  unfoldable pub peek_submission : GenericGpuDriver backend → Run (Option ValidatedSubmission)
  peek_submission d = backend.peek d.queue

  unfoldable pub queued_len : GenericGpuDriver backend → ℕ
  queued_len d = backend.len d.queue

  unfoldable pub is_queue_empty : GenericGpuDriver backend → Bool
  is_queue_empty d = backend.is_empty d.queue

  unfoldable pub is_queue_full : GenericGpuDriver backend → Bool
  is_queue_full d = backend.is_full d.queue

-- `GenericGpuDriver::state`.
abbrev pub device_state : {backend : SubmissionQueue} → GenericGpuDriver backend → DeviceState
device_state d = d.controller.state
