-- ===== src/SubmissionSession.antt =====
-- src/submission_session.rs: exclusive access to the submission methods of an operational driver.
-- The mutable borrow is the driver itself: a session is opened on a driver, and finishing it gives
-- back the driver as the session left it.
use Prim.Native.String.{String}
use rust_gpu_driver_lab.Base.{ℕ, Bool, Outcome}
use rust_gpu_driver_lab.Command.{RawCommand}
use rust_gpu_driver_lab.Device.Buffer.{BufferId}
use rust_gpu_driver_lab.QueueBackend.{SubmissionQueue}
use rust_gpu_driver_lab.GenericDriver.{GenericDriverError}
use rust_gpu_driver_lab.TypedDriver.{DriverState, Operational}
use rust_gpu_driver_lab.TypedGenericDriver
use rust_gpu_driver_lab.TypedGenericDriver.{TypedGenericGpuDriver}

pub record SubmissionSession (s : DriverState) (backend : SubmissionQueue) : Type 0 where
  pub driver : TypedGenericGpuDriver s backend

module _ (backend : SubmissionQueue) {s : DriverState} (operational : Operational s) where
  -- `SubmissionSession::new`, which `begin_submission_session` calls.
  abbrev pub begin_submission_session :
      TypedGenericGpuDriver s backend → SubmissionSession s backend
  begin_submission_session d = record { driver = d }

  unfoldable pub submit :
      SubmissionSession s backend
      → BufferId
      → RawCommand
      → SubmissionSession s backend × Outcome (GenericDriverError backend.Error) (Unit {0})
  submit session buffer_id command =
      let (driver, result) =
        TypedGenericDriver.submit backend operational session.driver buffer_id command in
      (record { driver = driver }, result)

  unfoldable pub queued_len : SubmissionSession s backend → ℕ
  queued_len session = TypedGenericDriver.queued_len backend operational session.driver

  unfoldable pub is_queue_empty : SubmissionSession s backend → Bool
  is_queue_empty session = TypedGenericDriver.is_queue_empty backend operational session.driver

  unfoldable pub is_queue_full : SubmissionSession s backend → Bool
  is_queue_full session = TypedGenericDriver.is_queue_full backend operational session.driver

  abbrev pub state_name : SubmissionSession s backend → String
  state_name session = TypedGenericDriver.state_name session.driver

  -- `finish` ends the borrow.
  abbrev pub finish : SubmissionSession s backend → TypedGenericGpuDriver s backend
  finish session = session.driver
