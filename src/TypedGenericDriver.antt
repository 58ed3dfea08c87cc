-- ===== src/TypedGenericDriver.antt =====
-- src/typed_generic_driver.rs: the generic driver with its lifecycle state in its type.
pub mod Typestate
pub mod Operations
pub mod Traces
pub mod Observation
use Prim.Native.String.{String}
use rust_gpu_driver_lab.Base.{
  ℕ, Bool, List, Option, Run, returns, and_then, Outcome, ok, err, panic,
}
use rust_gpu_driver_lab.Command.{RawCommand}
use rust_gpu_driver_lab.DeviceState.{DeviceState}
use rust_gpu_driver_lab.Device.Buffer.{BufferId}
use rust_gpu_driver_lab.Submission.{ValidatedSubmission}
use rust_gpu_driver_lab.QueueBackend.{SubmissionQueue}
use rust_gpu_driver_lab.GenericDriver
use rust_gpu_driver_lab.GenericDriver.{GenericGpuDriver, GenericDriverError}
use rust_gpu_driver_lab.TypedDriver.{DriverState, Operational, name}

pub record TypedGenericGpuDriver (s : DriverState) (backend : SubmissionQueue) : Type 0 where
  pub inner : GenericGpuDriver backend

pub record GenericTransitionError (s : DriverState) (backend : SubmissionQueue) : Type 0 where
  pub driver : TypedGenericGpuDriver s backend
  pub error : GenericDriverError backend.Error

abbrev pub into_parts :
    {s : DriverState} {backend : SubmissionQueue}
    → GenericTransitionError s backend
    → TypedGenericGpuDriver s backend × GenericDriverError backend.Error
into_parts e = (e.driver, e.error)

module _ {s : DriverState} {backend : SubmissionQueue} where
  abbrev pub state_name : TypedGenericGpuDriver s backend → String
  state_name d = name s

  abbrev pub runtime_state : TypedGenericGpuDriver s backend → DeviceState
  runtime_state d = GenericDriver.device_state d.inner

  abbrev pub change_state :
      (t : DriverState) → TypedGenericGpuDriver s backend → TypedGenericGpuDriver t backend
  change_state t d = record { inner = d.inner }

module _ (backend : SubmissionQueue) where
  unfoldable pub new : backend.Queue → TypedGenericGpuDriver DriverState.offline backend
  new q = record { inner = GenericDriver.new backend q }

  -- What a transition returns: the driver under its new marker, or the old one with the error.
  abbrev pub transition :
      {s : DriverState} (t : DriverState)
      → GenericDriver.Answer backend (Unit {0})
      → Outcome (GenericTransitionError s backend) (TypedGenericGpuDriver t backend)
  transition t (inner, ok _) = ok (record { inner = inner })
  transition t (inner, err e) = err (record { driver = record { inner = inner }; error = e })
  transition t (inner, panic) = panic

  unfoldable pub load_firmware :
      TypedGenericGpuDriver DriverState.offline backend
      → List ℕ
      → Outcome
          (GenericTransitionError DriverState.offline backend)
          (TypedGenericGpuDriver DriverState.firmware_loaded backend)
  load_firmware d image =
      transition DriverState.firmware_loaded (GenericDriver.load_firmware backend d.inner image)

  unfoldable pub start :
      TypedGenericGpuDriver DriverState.firmware_loaded backend
      → Outcome
          (GenericTransitionError DriverState.firmware_loaded backend)
          (TypedGenericGpuDriver DriverState.ready backend)
  start d = transition DriverState.ready (GenericDriver.start backend d.inner)

-- The methods of an operational driver.
module _ (backend : SubmissionQueue) {s : DriverState} (operational : Operational s) where
  -- A driver under the same marker beside the result.
  abbrev pub Answer : Type 0 → Type 0
  Answer A = TypedGenericGpuDriver s backend × Outcome (GenericDriverError backend.Error) A

  abbrev pub wrap : {A : Type 0} → GenericDriver.Answer backend A → Answer A
  wrap (inner, result) = (record { inner = inner }, result)

  unfoldable pub allocate_buffer : TypedGenericGpuDriver s backend → ℕ → Answer BufferId
  allocate_buffer d capacity = wrap (GenericDriver.allocate_buffer backend d.inner capacity)

  unfoldable pub write_buffer :
      TypedGenericGpuDriver s backend → BufferId → List ℕ → Answer (Unit {0})
  write_buffer d id bytes = wrap (GenericDriver.write_buffer backend d.inner id bytes)

  unfoldable pub submit :
      TypedGenericGpuDriver s backend → BufferId → RawCommand → Answer (Unit {0})
  submit d buffer_id command = wrap (GenericDriver.submit backend d.inner buffer_id command)

  unfoldable pub next_submission :
      TypedGenericGpuDriver s backend
      → Run (TypedGenericGpuDriver s backend × Option ValidatedSubmission)
  next_submission d =
      and_then (GenericDriver.next_submission backend d.inner)
        λ (inner, submission). returns (record { inner = inner }, submission)

  unfoldable pub peek_submission :
      TypedGenericGpuDriver s backend → Run (Option ValidatedSubmission)
  peek_submission d = GenericDriver.peek_submission backend d.inner

  unfoldable pub queued_len : TypedGenericGpuDriver s backend → ℕ
  queued_len d = GenericDriver.queued_len backend d.inner

  unfoldable pub is_queue_empty : TypedGenericGpuDriver s backend → Bool
  is_queue_empty d = GenericDriver.is_queue_empty backend d.inner

  unfoldable pub is_queue_full : TypedGenericGpuDriver s backend → Bool
  is_queue_full d = GenericDriver.is_queue_full backend d.inner
