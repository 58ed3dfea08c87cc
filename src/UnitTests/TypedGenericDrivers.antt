-- ===== src/UnitTests/TypedGenericDrivers.antt =====
-- src/typed_generic_driver.rs: its unit tests.
use rust_gpu_driver_lab.Base.{ℕ, ◌≡◌, refl, List, [], ◌∷◌, ◌++◌, replicate, err}
use rust_gpu_driver_lab.Command
use rust_gpu_driver_lab.Command.{RawCommand}
use rust_gpu_driver_lab.DeviceState as Controller
use rust_gpu_driver_lab.DeviceState.{DeviceState, magic}
use rust_gpu_driver_lab.Device
use rust_gpu_driver_lab.Device.Buffer
use rust_gpu_driver_lab.Device.Buffer.{BufferId}
use rust_gpu_driver_lab.Submission
use rust_gpu_driver_lab.Queue
use rust_gpu_driver_lab.StaticQueue
use rust_gpu_driver_lab.QueueBackend.{SubmissionQueue}
use rust_gpu_driver_lab.QueueBackend.Instances.{heap_backend, static_backend}
use rust_gpu_driver_lab.GenericDriver
use rust_gpu_driver_lab.GenericDriver.{GenericDriverError}
use rust_gpu_driver_lab.TypedDriver.{DriverState, Operational, ready_operational}
use rust_gpu_driver_lab.TypedGenericDriver.{
  TypedGenericGpuDriver, new, load_firmware, start, state_name, runtime_state, allocate_buffer,
  write_buffer, submit, next_submission, queued_len,
}
use rust_gpu_driver_lab.UnitTests.{Unwrap, UnwrapErr, UnwrapCall, UnwrapSome, Calling}

-- `b"RGPU\x01\x03"`.
abbrev firmware : List ℕ
firmware = magic ++ (1 ∷ 3 ∷ [])

abbrev valid_command : ℕ → RawCommand
valid_command id = record { id = id; offset = 0; length = 4; priority = 1 }

module _ (backend : SubmissionQueue) where
  abbrev Driver : Type 0
  Driver = TypedGenericGpuDriver DriverState.ready backend

  -- `ready_driver`, and what the test does with the driver.
  abbrev ReadyDriver : backend.Queue → (Driver → Type 0) → Type 0
  ReadyDriver queue rest =
      Unwrap (load_firmware backend (new backend queue) firmware)
        λ driver. Unwrap (start backend driver) rest

  -- How the tests go on with a ready driver: a buffer of eight zeros.
  abbrev ReadyWithBuffer : backend.Queue → (Driver → BufferId → Type 0) → Type 0
  ReadyWithBuffer queue rest = ReadyDriver queue λ driver.
      UnwrapCall (allocate_buffer backend ready_operational driver 8) λ driver buffer_id.
        UnwrapCall (write_buffer backend ready_operational driver buffer_id (replicate 8 0))
          λ driver _. rest driver buffer_id

  abbrev operational_length :
      {s : DriverState} → Operational s → TypedGenericGpuDriver s backend → ℕ
  operational_length operational driver = queued_len backend operational driver

DynamicBackendSurvivesStateTransitions : Type 0
DynamicBackendSurvivesStateTransitions = Unwrap (Queue.new 2) λ queue.
    ReadyWithBuffer heap_backend queue λ driver buffer_id.
      UnwrapCall (submit heap_backend ready_operational driver buffer_id (valid_command 10))
        λ driver _.
          Calling (next_submission heap_backend ready_operational driver)
            λ (driver, submission). UnwrapSome submission λ s. s.command.id ≡ 10

StaticBackendSurvivesStateTransitions : Type 0
StaticBackendSurvivesStateTransitions = Unwrap (StaticQueue.new 2) λ queue.
    ReadyWithBuffer (static_backend 2) queue λ driver buffer_id.
      UnwrapCall (submit (static_backend 2) ready_operational driver buffer_id (valid_command 20))
        λ driver _.
          Calling (next_submission (static_backend 2) ready_operational driver)
            λ (driver, submission). UnwrapSome submission λ s. s.command.id ≡ 20

FailedTransitionReturnsOriginalBackend : Type 0
FailedTransitionReturnsOriginalBackend = Unwrap (StaticQueue.new 3) λ queue.
    UnwrapErr
      (load_firmware (static_backend 3) (new (static_backend 3) queue) (b'b' ∷ b'a' ∷ b'd' ∷ []))
      λ failure.
        (state_name failure.driver ≡ "offline")
        × (runtime_state failure.driver ≡ DeviceState.offline)
        × (Unwrap (load_firmware (static_backend 3) failure.driver firmware)
            λ loaded. Unwrap (start (static_backend 3) loaded) λ ready. Unit)

DynamicQueueErrorRemainsConcrete : Type 0
DynamicQueueErrorRemainsConcrete = Unwrap (Queue.new 1) λ queue.
    ReadyWithBuffer heap_backend queue λ driver buffer_id.
      UnwrapCall (submit heap_backend ready_operational driver buffer_id (valid_command 1))
        λ driver _.
          (submit heap_backend ready_operational driver buffer_id (valid_command 2)).1
          ≡ err (GenericDriverError.queue (Queue.queue_full 1))

StaticQueueErrorRemainsConcrete : Type 0
StaticQueueErrorRemainsConcrete = Unwrap (StaticQueue.new 2) λ queue.
    ReadyWithBuffer (static_backend 2) queue λ driver buffer_id.
      UnwrapCall (submit (static_backend 2) ready_operational driver buffer_id (valid_command 7))
        λ driver _.
          (submit (static_backend 2) ready_operational driver buffer_id (valid_command 7)).1
          ≡ err (GenericDriverError.queue (StaticQueue.duplicate_command_id 7))

ReadyDriverSatisfiesBothBounds : Type 0
ReadyDriverSatisfiesBothBounds = Unwrap (StaticQueue.new 2) λ queue.
    ReadyDriver (static_backend 2) queue
      λ driver. operational_length (static_backend 2) ready_operational driver ≡ 0

-- The body is empty: what is asserted is the type of the argument.
abbrev AssertDynamicReady : TypedGenericGpuDriver DriverState.ready heap_backend → Type 0
AssertDynamicReady driver = Unit

DynamicBackendTypeIsPreserved : Type 0
DynamicBackendTypeIsPreserved =
    Unwrap (Queue.new 2) λ queue. ReadyDriver heap_backend queue AssertDynamicReady

abbrev AssertStaticReady : TypedGenericGpuDriver DriverState.ready (static_backend 4) → Type 0
AssertStaticReady driver = Unit

StaticBackendTypeIsPreserved : Type 0
StaticBackendTypeIsPreserved =
    Unwrap (StaticQueue.new 4) λ queue. ReadyDriver (static_backend 4) queue AssertStaticReady

-- Every test passes.
tests_pass :
    DynamicBackendSurvivesStateTransitions × StaticBackendSurvivesStateTransitions
    × FailedTransitionReturnsOriginalBackend × DynamicQueueErrorRemainsConcrete
    × StaticQueueErrorRemainsConcrete × ReadyDriverSatisfiesBothBounds
    × DynamicBackendTypeIsPreserved × StaticBackendTypeIsPreserved
unfolding StaticBackendTypeIsPreserved DynamicBackendTypeIsPreserved
    DynamicBackendSurvivesStateTransitions StaticBackendSurvivesStateTransitions
    FailedTransitionReturnsOriginalBackend DynamicQueueErrorRemainsConcrete
    StaticQueueErrorRemainsConcrete ReadyDriverSatisfiesBothBounds new load_firmware start
    allocate_buffer write_buffer submit next_submission queued_len GenericDriver.new
    GenericDriver.load_firmware GenericDriver.start GenericDriver.allocate_buffer
    GenericDriver.write_buffer GenericDriver.submit GenericDriver.next_submission
    GenericDriver.queued_len Queue.new Queue.enqueue Queue.dequeue StaticQueue.new
    StaticQueue.enqueue StaticQueue.dequeue StaticQueue.tail_index Controller.load_firmware
    Controller.check_image Controller.start Controller.ensure_ready Device.allocate_buffer
    Device.write_buffer Device.initialized_len Buffer.write Submission.validate_submission
    Command.try_from Command.range_end
tests_pass = (refl, refl, (refl, refl, tt), refl, refl, refl, tt, tt)
