-- ===== src/UnitTests/SimulatedDriver.antt =====
-- src/driver.rs: its unit tests.
use rust_gpu_driver_lab.Base.{ℕ, ◌≡◌, refl, List, [], ◌∷◌, ◌++◌, replicate, ok, err}
use rust_gpu_driver_lab.Command
use rust_gpu_driver_lab.Command.{RawCommand}
use rust_gpu_driver_lab.DeviceState as Controller
use rust_gpu_driver_lab.DeviceState.{FirmwareInfo, DeviceState, StateKind, invalid_state, magic}
use rust_gpu_driver_lab.Device
use rust_gpu_driver_lab.Device.Buffer
use rust_gpu_driver_lab.Submission
use rust_gpu_driver_lab.Submission.{SubmissionError, range_exceeds_initialized}
use rust_gpu_driver_lab.Queue
use rust_gpu_driver_lab.Driver.{
  SimulatedGpuDriver, DriverApiError, new, device_state, load_firmware, start, allocate_buffer,
  write_buffer, submit, next_submission, queued_len,
}
use rust_gpu_driver_lab.UnitTests.{Unwrap, UnwrapCall, UnwrapSome}

-- `b"RGPU\x01\x05"`.
abbrev firmware : List ℕ
firmware = magic ++ (1 ∷ 5 ∷ [])

abbrev firmware_1_5 : FirmwareInfo
firmware_1_5 = record { major = 1; minor = 5 }

abbrev valid_command : ℕ → RawCommand
valid_command id = record { id = id; offset = 0; length = 4; priority = 1 }

-- `ready_driver`, and what the test does with the driver.
abbrev ReadyDriver : ℕ → (SimulatedGpuDriver → Type 0) → Type 0
ReadyDriver queue_capacity rest = Unwrap (new queue_capacity) λ driver.
    UnwrapCall (load_firmware driver firmware)
      λ driver _. UnwrapCall (start driver) λ driver _. rest driver

ZeroQueueCapacityIsRejected : Type 0
ZeroQueueCapacityIsRejected = new 0 ≡ err (DriverApiError.queue Queue.zero_capacity)

NewDriverIsOffline : Type 0
NewDriverIsOffline = Unwrap (new 2) λ driver. device_state driver ≡ DeviceState.offline

FirmwareAndStartAreDelegated : Type 0
FirmwareAndStartAreDelegated = Unwrap (new 2) λ driver.
    UnwrapCall (load_firmware driver firmware) λ driver _.
      (device_state driver ≡ DeviceState.firmware_loaded firmware_1_5)
      × (UnwrapCall (start driver) λ driver _. device_state driver ≡ DeviceState.ready firmware_1_5)

AllocationBeforeReadyIsRejected : Type 0
AllocationBeforeReadyIsRejected = Unwrap (new 2) λ driver.
    (allocate_buffer driver 16).1
    ≡ err (DriverApiError.state (invalid_state "ensure_ready" StateKind.offline))

ReadyDriverProcessesSubmissionEndToEnd : Type 0
ReadyDriverProcessesSubmissionEndToEnd = ReadyDriver 2 λ driver.
    UnwrapCall (allocate_buffer driver 8) λ driver buffer_id.
      UnwrapCall (write_buffer driver buffer_id (1 ∷ 2 ∷ 3 ∷ 4 ∷ [])) λ driver _.
        UnwrapCall (submit driver buffer_id (valid_command 10)) λ driver _.
          let (served, submission) = next_submission driver in
          (queued_len driver ≡ 1)
          × (UnwrapSome submission λ s. (s.command.id ≡ 10) × (queued_len served ≡ 0))

InvalidCommandDoesNotModifyQueue : Type 0
InvalidCommandDoesNotModifyQueue = ReadyDriver 2 λ driver.
    UnwrapCall (allocate_buffer driver 8) λ driver buffer_id.
      UnwrapCall (write_buffer driver buffer_id (replicate 8 0)) λ driver _.
        let (driver, result) = submit driver buffer_id (valid_command 0) in
        (result ≡ err (DriverApiError.submission (SubmissionError.command Command.zero_command_id)))
        × (queued_len driver ≡ 0)

ZeroInitializedBufferRejectsSubmission : Type 0
ZeroInitializedBufferRejectsSubmission = ReadyDriver 2 λ driver.
    UnwrapCall (allocate_buffer driver 8) λ driver buffer_id.
      (submit driver buffer_id (valid_command 1)).1
      ≡ err (DriverApiError.submission (range_exceeds_initialized 4 0))

QueueFullErrorPreservesFirstSubmission : Type 0
QueueFullErrorPreservesFirstSubmission = ReadyDriver 1 λ driver.
    UnwrapCall (allocate_buffer driver 8) λ driver buffer_id.
      UnwrapCall (write_buffer driver buffer_id (replicate 8 0)) λ driver _.
        UnwrapCall (submit driver buffer_id (valid_command 1)) λ driver _.
          let (driver, result) = submit driver buffer_id (valid_command 2) in
          (result ≡ err (DriverApiError.queue (Queue.queue_full 1)))
          × (queued_len driver ≡ 1)
          × (UnwrapSome (next_submission driver).1 λ first. first.command.id ≡ 1)

WritingBeforeReadyIsRejected : Type 0
WritingBeforeReadyIsRejected = ReadyDriver 2 λ driver.
    UnwrapCall (allocate_buffer driver 8) λ driver buffer_id.
      let stopped = record driver { controller = Controller.reset driver.controller } in
      let (driver, result) = write_buffer stopped buffer_id (1 ∷ 2 ∷ 3 ∷ 4 ∷ []) in
      (result ≡ err (DriverApiError.state (invalid_state "ensure_ready" StateKind.offline)))
      × (Device.initialized_len driver.device buffer_id ≡ ok 0)

-- Every test passes.
tests_pass :
    ZeroQueueCapacityIsRejected × NewDriverIsOffline × FirmwareAndStartAreDelegated
    × AllocationBeforeReadyIsRejected × ReadyDriverProcessesSubmissionEndToEnd
    × InvalidCommandDoesNotModifyQueue × ZeroInitializedBufferRejectsSubmission
    × QueueFullErrorPreservesFirstSubmission × WritingBeforeReadyIsRejected
unfolding ZeroQueueCapacityIsRejected NewDriverIsOffline FirmwareAndStartAreDelegated
    AllocationBeforeReadyIsRejected ReadyDriverProcessesSubmissionEndToEnd
    InvalidCommandDoesNotModifyQueue ZeroInitializedBufferRejectsSubmission
    QueueFullErrorPreservesFirstSubmission WritingBeforeReadyIsRejected new load_firmware start
    allocate_buffer write_buffer submit next_submission queued_len Queue.new Queue.enqueue
    Queue.dequeue Controller.load_firmware Controller.check_image Controller.start
    Controller.ensure_ready Controller.reset Device.allocate_buffer Device.write_buffer
    Device.initialized_len Buffer.write Submission.validate_submission Command.try_from
    Command.range_end
tests_pass = (
  refl,
  refl,
  (refl, refl),
  refl,
  (refl, (refl, refl)),
  (refl, refl),
  refl,
  (refl, refl, refl),
  (refl, refl),
)
