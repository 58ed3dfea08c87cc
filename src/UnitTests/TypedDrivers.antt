-- ===== src/UnitTests/TypedDrivers.antt =====
-- src/typed_driver.rs: its unit tests.
use rust_gpu_driver_lab.Base.{ℕ, ◌≡◌, refl, List, [], ◌∷◌, ◌++◌, replicate, err}
use rust_gpu_driver_lab.Command
use rust_gpu_driver_lab.Command.{RawCommand}
use rust_gpu_driver_lab.DeviceState as Controller
use rust_gpu_driver_lab.DeviceState.{FirmwareInfo, DeviceState, firmware_too_short, magic}
use rust_gpu_driver_lab.Device
use rust_gpu_driver_lab.Device.Buffer
use rust_gpu_driver_lab.Submission
use rust_gpu_driver_lab.Submission.{SubmissionError}
use rust_gpu_driver_lab.Queue
use rust_gpu_driver_lab.Driver
use rust_gpu_driver_lab.Driver.{DriverApiError}
use rust_gpu_driver_lab.TypedDriver.{
  TypedDriver, DriverState, Operational, ready_operational, new, load_firmware, start, state_name,
  runtime_state, allocate_buffer, write_buffer, submit, next_submission, queued_len,
}
use rust_gpu_driver_lab.UnitTests.{Unwrap, UnwrapErr, UnwrapCall, UnwrapSome}

-- `b"RGPU\x01\x09"`.
abbrev firmware : List ℕ
firmware = magic ++ (1 ∷ 9 ∷ [])

abbrev firmware_1_9 : FirmwareInfo
firmware_1_9 = record { major = 1; minor = 9 }

-- `b"bad"`.
abbrev bad_firmware : List ℕ
bad_firmware = b'b' ∷ b'a' ∷ b'd' ∷ []

abbrev valid_command : ℕ → RawCommand
valid_command id = record { id = id; offset = 0; length = 4; priority = 1 }

-- `ready_driver`, and what the test does with the driver.
abbrev ReadyDriver : ℕ → (TypedDriver DriverState.ready → Type 0) → Type 0
ReadyDriver queue_capacity rest =
    Unwrap (new queue_capacity)
      λ driver. Unwrap (load_firmware driver firmware) λ driver. Unwrap (start driver) rest

abbrev operational_queue_length : {s : DriverState} → Operational s → TypedDriver s → ℕ
operational_queue_length operational driver = queued_len operational driver

NewTypedDriverIsOffline : Type 0
NewTypedDriverIsOffline = Unwrap (new 2) λ driver. runtime_state driver ≡ DeviceState.offline

ZeroQueueCapacityErrorIsPreserved : Type 0
ZeroQueueCapacityErrorIsPreserved = new 0 ≡ err (DriverApiError.queue Queue.zero_capacity)

SuccessfulTransitionsChangeRuntimeState : Type 0
SuccessfulTransitionsChangeRuntimeState = Unwrap (new 2) λ offline.
    Unwrap (load_firmware offline firmware) λ loaded.
      (runtime_state loaded ≡ DeviceState.firmware_loaded firmware_1_9)
      × (Unwrap (start loaded) λ ready. runtime_state ready ≡ DeviceState.ready firmware_1_9)

FailedFirmwareTransitionReturnsOfflineDriver : Type 0
FailedFirmwareTransitionReturnsOfflineDriver = Unwrap (new 2) λ offline.
    UnwrapErr (load_firmware offline bad_firmware) λ transition_error.
      (transition_error.error ≡ DriverApiError.state (firmware_too_short 3))
      × (runtime_state transition_error.driver ≡ DeviceState.offline)
      × (Unwrap (load_firmware transition_error.driver firmware) λ loaded.
          (info : FirmwareInfo) × (runtime_state loaded ≡ DeviceState.firmware_loaded info))

ReadyDriverProcessesSubmission : Type 0
ReadyDriverProcessesSubmission = ReadyDriver 2 λ driver.
    UnwrapCall (allocate_buffer ready_operational driver 8) λ driver buffer_id.
      UnwrapCall (write_buffer ready_operational driver buffer_id (1 ∷ 2 ∷ 3 ∷ 4 ∷ [])) λ driver _.
        UnwrapCall (submit ready_operational driver buffer_id (valid_command 10)) λ driver _.
          let (served, submission) = next_submission ready_operational driver in
          (queued_len ready_operational driver ≡ 1)
          × (UnwrapSome submission
              λ s. (s.command.id ≡ 10) × (queued_len ready_operational served ≡ 0))

InvalidCommandDoesNotModifyReadyDriverQueue : Type 0
InvalidCommandDoesNotModifyReadyDriverQueue = ReadyDriver 2 λ driver.
    UnwrapCall (allocate_buffer ready_operational driver 8) λ driver buffer_id.
      UnwrapCall (write_buffer ready_operational driver buffer_id (replicate 8 0)) λ driver _.
        let (driver, result) = submit ready_operational driver buffer_id (valid_command 0) in
        (result ≡ err (DriverApiError.submission (SubmissionError.command Command.zero_command_id)))
        × (queued_len ready_operational driver ≡ 0)

QueueFullErrorPreservesExistingSubmission : Type 0
QueueFullErrorPreservesExistingSubmission = ReadyDriver 1 λ driver.
    UnwrapCall (allocate_buffer ready_operational driver 8) λ driver buffer_id.
      UnwrapCall (write_buffer ready_operational driver buffer_id (replicate 8 0)) λ driver _.
        UnwrapCall (submit ready_operational driver buffer_id (valid_command 1)) λ driver _.
          let (driver, result) = submit ready_operational driver buffer_id (valid_command 2) in
          (result ≡ err (DriverApiError.queue (Queue.queue_full 1)))
          × (queued_len ready_operational driver ≡ 1)
          × (UnwrapSome (next_submission ready_operational driver).1 λ s. s.command.id ≡ 1)

StateNamesFollowCompileTimeMarkers : Type 0
StateNamesFollowCompileTimeMarkers = Unwrap (new 2) λ offline.
    (state_name offline ≡ "offline")
    × (Unwrap (load_firmware offline firmware) λ loaded.
        (state_name loaded ≡ "firmware-loaded")
        × (Unwrap (start loaded) λ ready. state_name ready ≡ "ready"))

ReadyDriverSatisfiesOperationalCapability : Type 0
ReadyDriverSatisfiesOperationalCapability =
    ReadyDriver 2 λ driver. operational_queue_length ready_operational driver ≡ 0

OperationalCapabilityAllowsBufferWork : Type 0
OperationalCapabilityAllowsBufferWork = ReadyDriver 2 λ driver.
    UnwrapCall (allocate_buffer ready_operational driver 8) λ driver buffer_id.
      UnwrapCall (write_buffer ready_operational driver buffer_id (1 ∷ 2 ∷ 3 ∷ 4 ∷ [])) λ driver _.
        UnwrapCall (submit ready_operational driver buffer_id (valid_command 44))
          λ driver _. queued_len ready_operational driver ≡ 1

RecoveredDriverKeepsOfflineMarker : Type 0
RecoveredDriverKeepsOfflineMarker = Unwrap (new 2) λ offline.
    UnwrapErr (load_firmware offline bad_firmware) λ failure.
      (state_name failure.driver ≡ "offline") × (runtime_state failure.driver ≡ DeviceState.offline)

-- Every test passes.
tests_pass :
    NewTypedDriverIsOffline × ZeroQueueCapacityErrorIsPreserved
    × SuccessfulTransitionsChangeRuntimeState × FailedFirmwareTransitionReturnsOfflineDriver
    × ReadyDriverProcessesSubmission × InvalidCommandDoesNotModifyReadyDriverQueue
    × QueueFullErrorPreservesExistingSubmission × StateNamesFollowCompileTimeMarkers
    × ReadyDriverSatisfiesOperationalCapability × OperationalCapabilityAllowsBufferWork
    × RecoveredDriverKeepsOfflineMarker
unfolding NewTypedDriverIsOffline ZeroQueueCapacityErrorIsPreserved
    SuccessfulTransitionsChangeRuntimeState FailedFirmwareTransitionReturnsOfflineDriver
    ReadyDriverProcessesSubmission InvalidCommandDoesNotModifyReadyDriverQueue
    QueueFullErrorPreservesExistingSubmission StateNamesFollowCompileTimeMarkers
    ReadyDriverSatisfiesOperationalCapability OperationalCapabilityAllowsBufferWork
    RecoveredDriverKeepsOfflineMarker new load_firmware start allocate_buffer write_buffer submit
    next_submission queued_len Driver.new Driver.load_firmware Driver.start Driver.allocate_buffer
    Driver.write_buffer Driver.submit Driver.next_submission Driver.queued_len Queue.new
    Queue.enqueue Queue.dequeue Controller.load_firmware Controller.check_image Controller.start
    Controller.ensure_ready Device.allocate_buffer Device.write_buffer Device.initialized_len
    Buffer.write Submission.validate_submission Command.try_from Command.range_end
tests_pass = (
  refl,
  refl,
  (refl, refl),
  (refl, refl, (firmware_1_9, refl)),
  (refl, (refl, refl)),
  (refl, refl),
  (refl, refl, refl),
  (refl, (refl, refl)),
  refl,
  refl,
  (refl, refl),
)
