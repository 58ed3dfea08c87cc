-- ===== src/Driver.antt =====
-- src/driver.rs: the driver over the queue on the heap.
pub mod Generic
pub mod Traces
use rust_gpu_driver_lab.Base.{ℕ, Bool, List, Option, Outcome, ok, err, panic, map_err, ◌>>=◌}
use rust_gpu_driver_lab.Command.{RawCommand}
use rust_gpu_driver_lab.DeviceState as Controller
use rust_gpu_driver_lab.DeviceState.{DeviceController, DeviceState, StateError, FirmwareInfo}
use rust_gpu_driver_lab.Device
use rust_gpu_driver_lab.Device.{GpuDevice}
use rust_gpu_driver_lab.Device.Buffer.{BufferId, DriverError}
use rust_gpu_driver_lab.Submission.{
  SubmissionError, ValidatedSubmission, validate_submission, device_info,
}
use rust_gpu_driver_lab.Queue
use rust_gpu_driver_lab.Queue.{CommandQueue, QueueError}

pub data DriverApiError : Type 0 where
  state : StateError → DriverApiError
  buffer : DriverError → DriverApiError
  submission : SubmissionError → DriverApiError
  queue : QueueError → DriverApiError

pub record SimulatedGpuDriver : Type 0 where
  pub controller : DeviceController
  pub device : GpuDevice
  pub queue : CommandQueue

abbrev pub Answer : Type 0 → Type 0
Answer A = SimulatedGpuDriver × Outcome DriverApiError A

unfoldable pub new : ℕ → Outcome DriverApiError SimulatedGpuDriver
new queue_capacity = do
  q ← map_err DriverApiError.queue (Queue.new queue_capacity)
  ok (record { controller = Controller.default; device = Device.default; queue = q })

abbrev pub device_state : SimulatedGpuDriver → DeviceState
device_state d = d.controller.state

unfoldable pub load_firmware : SimulatedGpuDriver → List ℕ → Answer (Unit {0})
load_firmware d image =
    let (controller, result) = Controller.load_firmware d.controller image in
    (record d { controller = controller }, map_err DriverApiError.state result)

unfoldable pub start : SimulatedGpuDriver → Answer (Unit {0})
start d =
    let (controller, result) = Controller.start d.controller in
    (record d { controller = controller }, map_err DriverApiError.state result)

-- `self.controller.ensure_ready()?;` and the rest of the method.
abbrev pub gate :
    {A : Type 0} → Outcome StateError FirmwareInfo → SimulatedGpuDriver → Answer A → Answer A
gate (ok info) d rest = rest
gate (err e) d rest = (d, err (DriverApiError.state e))
gate panic d rest = (d, panic)

abbrev pub when_ready : {A : Type 0} → SimulatedGpuDriver → Answer A → Answer A
when_ready d rest = gate (Controller.ensure_ready d.controller) d rest

unfoldable pub allocate_buffer : SimulatedGpuDriver → ℕ → Answer BufferId
allocate_buffer d capacity = when_ready d (
    let (device, result) = Device.allocate_buffer d.device capacity in
    (record d { device = device }, map_err DriverApiError.buffer result))

unfoldable pub write_buffer : SimulatedGpuDriver → BufferId → List ℕ → Answer (Unit {0})
write_buffer d id bytes = when_ready d (
    let (device, result) = Device.write_buffer d.device id bytes in
    (record d { device = device }, map_err DriverApiError.buffer result))

-- `submit` once the request has been validated, or not.
abbrev pub enqueue_validated :
    SimulatedGpuDriver → Outcome SubmissionError ValidatedSubmission → Answer (Unit {0})
enqueue_validated d (ok s) =
    let (q, result) = Queue.enqueue d.queue s in
    (record d { queue = q }, map_err DriverApiError.queue result)
enqueue_validated d (err e) = (d, err (DriverApiError.submission e))
enqueue_validated d panic = (d, panic)

unfoldable pub submit : SimulatedGpuDriver → BufferId → RawCommand → Answer (Unit {0})
submit d buffer_id command = when_ready d (
    enqueue_validated d
      (validate_submission d.device (record { buffer_id = buffer_id; command = command })))

unfoldable pub next_submission :
    SimulatedGpuDriver → SimulatedGpuDriver × Option ValidatedSubmission
next_submission d = let (q, s) = Queue.dequeue d.queue in (record d { queue = q }, s)

unfoldable pub queued_len : SimulatedGpuDriver → ℕ
queued_len d = Queue.len d.queue

unfoldable pub is_queue_full : SimulatedGpuDriver → Bool
is_queue_full d = Queue.is_full d.queue
