-- ===== src/UnitTests/GenericDrivers.antt =====
-- src/generic_driver.rs: its unit tests.
use rust_gpu_driver_lab.Base.{
  ℕ, ◌≡◌, refl, List, [], ◌∷◌, ◌++◌, replicate, Option, none, some, Run, returns, and_then, err,
}
use rust_gpu_driver_lab.Command
use rust_gpu_driver_lab.Command.{RawCommand}
use rust_gpu_driver_lab.DeviceState as Controller
use rust_gpu_driver_lab.DeviceState.{StateError, invalid_state, magic}
use rust_gpu_driver_lab.Device
use rust_gpu_driver_lab.Device.Buffer
use rust_gpu_driver_lab.Device.Buffer.{BufferId}
use rust_gpu_driver_lab.Submission
use rust_gpu_driver_lab.Submission.{SubmissionError, ValidatedSubmission}
use rust_gpu_driver_lab.Queue
use rust_gpu_driver_lab.StaticQueue
use rust_gpu_driver_lab.QueueBackend.{SubmissionQueue}
use rust_gpu_driver_lab.QueueBackend.Instances.{heap_backend, static_backend}
use rust_gpu_driver_lab.GenericDriver.{
  GenericGpuDriver, GenericDriverError, new, load_firmware, start, allocate_buffer, write_buffer,
  submit, next_submission, peek_submission, queued_len,
}
use rust_gpu_driver_lab.UnitTests.{Unwrap, UnwrapCall, UnwrapSome, Calling}

-- `b"RGPU\x01\x01"`.
abbrev firmware : List ℕ
firmware = magic ++ (1 ∷ 1 ∷ [])

abbrev valid_command : ℕ → RawCommand
valid_command id = record { id = id; offset = 0; length = 4; priority = 1 }

module _ (backend : SubmissionQueue) where
  -- `start_driver`, and what the test does with the driver.
  abbrev StartDriver : backend.Queue → (GenericGpuDriver backend → Type 0) → Type 0
  StartDriver queue rest =
      UnwrapCall (load_firmware backend (new backend queue) firmware)
        λ driver _. UnwrapCall (start backend driver) λ driver _. rest driver

  abbrev command_id : Option ValidatedSubmission → Option ℕ
  command_id none = none
  command_id (some submission) = some submission.command.id

  abbrev process_next_id : GenericGpuDriver backend → Run (GenericGpuDriver backend × Option ℕ)
  process_next_id driver =
      and_then (next_submission backend driver)
        λ (driver, submission). returns (driver, command_id submission)

  -- How the tests go on with a started driver: a buffer of eight zeros.
  abbrev StartWithBuffer : backend.Queue → (GenericGpuDriver backend → BufferId → Type 0) → Type 0
  StartWithBuffer queue rest = StartDriver queue λ driver.
      UnwrapCall (allocate_buffer backend driver 8) λ driver buffer_id.
        UnwrapCall (write_buffer backend driver buffer_id (replicate 8 0))
          λ driver _. rest driver buffer_id

DynamicQueueBackendProcessesSubmission : Type 0
DynamicQueueBackendProcessesSubmission = Unwrap (Queue.new 2) λ queue.
    StartWithBuffer heap_backend queue λ driver buffer_id.
      UnwrapCall (submit heap_backend driver buffer_id (valid_command 10))
        λ driver _. Calling (process_next_id heap_backend driver) λ (driver, id). id ≡ some 10

StaticQueueBackendProcessesSubmission : Type 0
StaticQueueBackendProcessesSubmission = Unwrap (StaticQueue.new 2) λ queue.
    StartWithBuffer (static_backend 2) queue λ driver buffer_id.
      UnwrapCall (submit (static_backend 2) driver buffer_id (valid_command 20))
        λ driver _. Calling (process_next_id (static_backend 2) driver) λ (driver, id). id ≡ some 20

DynamicQueueErrorIsPreserved : Type 0
DynamicQueueErrorIsPreserved = Unwrap (Queue.new 1) λ queue.
    StartWithBuffer heap_backend queue λ driver buffer_id.
      UnwrapCall (submit heap_backend driver buffer_id (valid_command 1)) λ driver _.
        (submit heap_backend driver buffer_id (valid_command 2)).1
        ≡ err (GenericDriverError.queue (Queue.queue_full 1))

StaticQueueErrorIsPreserved : Type 0
StaticQueueErrorIsPreserved = Unwrap (StaticQueue.new 2) λ queue.
    StartWithBuffer (static_backend 2) queue λ driver buffer_id.
      UnwrapCall (submit (static_backend 2) driver buffer_id (valid_command 7)) λ driver _.
        let (driver, result) = submit (static_backend 2) driver buffer_id (valid_command 7) in
        (result ≡ err (GenericDriverError.queue (StaticQueue.duplicate_command_id 7)))
        × (queued_len (static_backend 2) driver ≡ 1)

DynamicInvalidCommandRejected : Type 0
DynamicInvalidCommandRejected = Unwrap (Queue.new 1) λ queue.
    StartWithBuffer heap_backend queue λ driver buffer_id.
      let (driver, result) = submit heap_backend driver buffer_id (valid_command 0) in
      (result
        ≡ err (GenericDriverError.submission (SubmissionError.command Command.zero_command_id)))
      × (queued_len heap_backend driver ≡ 0)

StaticInvalidCommandRejected : Type 0
StaticInvalidCommandRejected = Unwrap (StaticQueue.new 1) λ queue.
    StartWithBuffer (static_backend 1) queue λ driver buffer_id.
      let (driver, result) = submit (static_backend 1) driver buffer_id (valid_command 0) in
      (result
        ≡ err (GenericDriverError.submission (SubmissionError.command Command.zero_command_id)))
      × (queued_len (static_backend 1) driver ≡ 0)

DynamicPeekSubmission : Type 0
DynamicPeekSubmission = Unwrap (Queue.new 2) λ queue.
    StartWithBuffer heap_backend queue λ driver buffer_id.
      UnwrapCall (submit heap_backend driver buffer_id (valid_command 10)) λ driver _.
        UnwrapCall (submit heap_backend driver buffer_id (valid_command 20)) λ driver _.
          Calling (peek_submission heap_backend driver) λ first.
            (UnwrapSome first λ s. s.command.id ≡ 10) × (queued_len heap_backend driver ≡ 2)

StaticPeekSubmission : Type 0
StaticPeekSubmission = Unwrap (StaticQueue.new 2) λ queue.
    StartWithBuffer (static_backend 2) queue λ driver buffer_id.
      UnwrapCall (submit (static_backend 2) driver buffer_id (valid_command 10)) λ driver _.
        UnwrapCall (submit (static_backend 2) driver buffer_id (valid_command 20)) λ driver _.
          Calling (peek_submission (static_backend 2) driver) λ first.
            (UnwrapSome first λ s. s.command.id ≡ 10) × (queued_len (static_backend 2) driver ≡ 2)

DynamicReadiness : Type 0
DynamicReadiness = Unwrap (Queue.new 2) λ queue.
    (e : StateError) × ((allocate_buffer heap_backend (new heap_backend queue) 8).1
      ≡ err (GenericDriverError.state e))

StaticReadiness : Type 0
StaticReadiness = Unwrap (StaticQueue.new 2) λ queue.
    (e : StateError) × ((allocate_buffer (static_backend 2) (new (static_backend 2) queue) 8).1
      ≡ err (GenericDriverError.state e))

-- Every test passes.
tests_pass :
    DynamicQueueBackendProcessesSubmission × StaticQueueBackendProcessesSubmission
    × DynamicQueueErrorIsPreserved × StaticQueueErrorIsPreserved × DynamicInvalidCommandRejected
    × StaticInvalidCommandRejected × DynamicPeekSubmission × StaticPeekSubmission × DynamicReadiness
    × StaticReadiness
unfolding DynamicQueueBackendProcessesSubmission StaticQueueBackendProcessesSubmission
    DynamicQueueErrorIsPreserved StaticQueueErrorIsPreserved DynamicInvalidCommandRejected
    StaticInvalidCommandRejected DynamicPeekSubmission StaticPeekSubmission DynamicReadiness
    StaticReadiness new load_firmware start allocate_buffer write_buffer submit next_submission
    peek_submission queued_len Queue.new Queue.enqueue Queue.dequeue Queue.peek StaticQueue.new
    StaticQueue.enqueue StaticQueue.dequeue StaticQueue.peek StaticQueue.tail_index
    Controller.load_firmware Controller.check_image Controller.start Controller.ensure_ready
    Device.allocate_buffer Device.write_buffer Device.initialized_len Buffer.write
    Submission.validate_submission Command.try_from Command.range_end
tests_pass = (
  refl,
  refl,
  refl,
  (refl, refl),
  (refl, refl),
  (refl, refl),
  (refl, refl),
  (refl, refl),
  (invalid_state "ensure_ready" Controller.StateKind.offline, refl),
  (invalid_state "ensure_ready" Controller.StateKind.offline, refl),
)
