-- ===== src/UnitTests/Sessions.antt =====
-- src/submission_session.rs: its unit tests.
use rust_gpu_driver_lab.Base.{ℕ, ◌≡◌, refl, List, [], ◌∷◌, ◌++◌, replicate, err}
use rust_gpu_driver_lab.Command
use rust_gpu_driver_lab.Command.{RawCommand}
use rust_gpu_driver_lab.DeviceState as Controller
use rust_gpu_driver_lab.DeviceState.{magic}
use rust_gpu_driver_lab.Device
use rust_gpu_driver_lab.Device.Buffer
use rust_gpu_driver_lab.Device.Buffer.{BufferId}
use rust_gpu_driver_lab.Submission
use rust_gpu_driver_lab.Submission.{SubmissionError}
use rust_gpu_driver_lab.Queue
use rust_gpu_driver_lab.StaticQueue
use rust_gpu_driver_lab.QueueBackend.{SubmissionQueue}
use rust_gpu_driver_lab.QueueBackend.Instances.{heap_backend, static_backend}
use rust_gpu_driver_lab.GenericDriver
use rust_gpu_driver_lab.GenericDriver.{GenericDriverError}
use rust_gpu_driver_lab.TypedDriver.{DriverState, ready_operational}
use rust_gpu_driver_lab.TypedGenericDriver
use rust_gpu_driver_lab.TypedGenericDriver.{TypedGenericGpuDriver}
use rust_gpu_driver_lab.SubmissionSession.{
  SubmissionSession, begin_submission_session, submit, queued_len, state_name, finish,
}
use rust_gpu_driver_lab.UnitTests.{Unwrap, UnwrapCall, UnwrapSome, Calling}

-- `b"RGPU\x01\x04"`.
abbrev firmware : List ℕ
firmware = magic ++ (1 ∷ 4 ∷ [])

abbrev valid_command : ℕ → RawCommand
valid_command id = record { id = id; offset = 0; length = 4; priority = 1 }

module _ (backend : SubmissionQueue) where
  abbrev Session : Type 0
  Session = SubmissionSession DriverState.ready backend

  -- `ready_driver`, and what the test does with the driver.
  abbrev ReadyDriver :
      backend.Queue → (TypedGenericGpuDriver DriverState.ready backend → Type 0) → Type 0
  ReadyDriver queue rest =
      Unwrap
        (TypedGenericDriver.load_firmware backend (TypedGenericDriver.new backend queue) firmware)
        λ driver. Unwrap (TypedGenericDriver.start backend driver) rest

  -- How every test begins: a ready driver, a buffer of eight zeros, and a session.
  abbrev InSession : backend.Queue → (Session → BufferId → Type 0) → Type 0
  InSession queue rest = ReadyDriver queue λ driver.
      UnwrapCall (TypedGenericDriver.allocate_buffer backend ready_operational driver 8)
        λ driver buffer_id.
          UnwrapCall
            (TypedGenericDriver.write_buffer backend ready_operational driver buffer_id
              (replicate 8 0))
            λ driver _. rest (begin_submission_session backend ready_operational driver) buffer_id

  -- `driver.next_submission().unwrap()` has this identifier.
  abbrev NextHasId : TypedGenericGpuDriver DriverState.ready backend → ℕ → Type 0
  NextHasId driver id =
      Calling (TypedGenericDriver.next_submission backend ready_operational driver)
        λ (driver, submission). UnwrapSome submission λ s. s.command.id ≡ id

DynamicSessionSubmitsCommands : Type 0
DynamicSessionSubmitsCommands = Unwrap (Queue.new 2) λ queue.
    InSession heap_backend queue λ session buffer_id.
      UnwrapCall (submit heap_backend ready_operational session buffer_id (valid_command 10))
        λ session _.
          (queued_len heap_backend ready_operational session ≡ 1)
          × (state_name heap_backend ready_operational session ≡ "ready")
          × (TypedGenericDriver.queued_len heap_backend ready_operational session.driver ≡ 1)

StaticSessionSubmitsCommands : Type 0
StaticSessionSubmitsCommands = Unwrap (StaticQueue.new 2) λ queue.
    InSession (static_backend 2) queue λ session buffer_id.
      UnwrapCall (submit (static_backend 2) ready_operational session buffer_id (valid_command 20))
        λ session _. queued_len (static_backend 2) ready_operational session ≡ 1

FinishReleasesDriverBorrow : Type 0
FinishReleasesDriverBorrow = Unwrap (Queue.new 2) λ queue.
    InSession heap_backend queue λ session buffer_id.
      UnwrapCall (submit heap_backend ready_operational session buffer_id (valid_command 1))
        λ session _. NextHasId heap_backend (finish heap_backend ready_operational session) 1

-- The end of the block drops the session, which gives the driver back.
DroppingSessionReleasesDriverBorrow : Type 0
DroppingSessionReleasesDriverBorrow = Unwrap (Queue.new 2) λ queue.
    InSession heap_backend queue λ session buffer_id.
      UnwrapCall (submit heap_backend ready_operational session buffer_id (valid_command 2))
        λ session _. NextHasId heap_backend session.driver 2

FailedSubmissionDoesNotEndSession : Type 0
FailedSubmissionDoesNotEndSession = Unwrap (Queue.new 2) λ queue.
    InSession heap_backend queue λ session buffer_id.
      let (session, result) =
        submit heap_backend ready_operational session buffer_id (valid_command 0) in
      (result
        ≡ err (GenericDriverError.submission (SubmissionError.command Command.zero_command_id)))
      × (queued_len heap_backend ready_operational session ≡ 0)
      × (UnwrapCall (submit heap_backend ready_operational session buffer_id (valid_command 3))
          λ session _. queued_len heap_backend ready_operational session ≡ 1)

DynamicQueueErrorRemainsConcrete : Type 0
DynamicQueueErrorRemainsConcrete = Unwrap (Queue.new 1) λ queue.
    InSession heap_backend queue λ session buffer_id.
      UnwrapCall (submit heap_backend ready_operational session buffer_id (valid_command 1))
        λ session _.
          (submit heap_backend ready_operational session buffer_id (valid_command 2)).1
          ≡ err (GenericDriverError.queue (Queue.queue_full 1))

StaticQueueErrorRemainsConcrete : Type 0
StaticQueueErrorRemainsConcrete = Unwrap (StaticQueue.new 2) λ queue.
    InSession (static_backend 2) queue λ session buffer_id.
      UnwrapCall (submit (static_backend 2) ready_operational session buffer_id (valid_command 7))
        λ session _.
          (submit (static_backend 2) ready_operational session buffer_id (valid_command 7)).1
          ≡ err (GenericDriverError.queue (StaticQueue.duplicate_command_id 7))

-- Every test passes.
tests_pass :
    DynamicSessionSubmitsCommands × StaticSessionSubmitsCommands × FinishReleasesDriverBorrow
    × DroppingSessionReleasesDriverBorrow × FailedSubmissionDoesNotEndSession
    × DynamicQueueErrorRemainsConcrete × StaticQueueErrorRemainsConcrete
unfolding DynamicSessionSubmitsCommands StaticSessionSubmitsCommands FinishReleasesDriverBorrow
    DroppingSessionReleasesDriverBorrow FailedSubmissionDoesNotEndSession
    DynamicQueueErrorRemainsConcrete StaticQueueErrorRemainsConcrete submit queued_len
    TypedGenericDriver.new TypedGenericDriver.load_firmware TypedGenericDriver.start
    TypedGenericDriver.allocate_buffer TypedGenericDriver.write_buffer TypedGenericDriver.submit
    TypedGenericDriver.next_submission TypedGenericDriver.queued_len GenericDriver.new
    GenericDriver.load_firmware GenericDriver.start GenericDriver.allocate_buffer
    GenericDriver.write_buffer GenericDriver.submit GenericDriver.next_submission
    GenericDriver.queued_len Queue.new Queue.enqueue Queue.dequeue StaticQueue.new
    StaticQueue.enqueue StaticQueue.dequeue StaticQueue.tail_index Controller.load_firmware
    Controller.check_image Controller.start Controller.ensure_ready Device.allocate_buffer
    Device.write_buffer Device.initialized_len Buffer.write Submission.validate_submission
    Command.try_from Command.range_end
tests_pass = ((refl, refl, refl), refl, refl, refl, (refl, refl, refl), refl, refl)
