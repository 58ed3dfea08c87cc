-- ===== src/TypedDriver.antt =====
-- src/typed_driver.rs: the driver with its lifecycle state in its type.
pub mod Typestate
pub mod Generic
use Prim.Native.String.{String}
use rust_gpu_driver_lab.Base.{ℕ, Bool, List, Option, Outcome, ok, err, panic}
use rust_gpu_driver_lab.Command.{RawCommand}
use rust_gpu_driver_lab.DeviceState.{DeviceState}
use rust_gpu_driver_lab.Device.Buffer.{BufferId}
use rust_gpu_driver_lab.Submission.{ValidatedSubmission}
use rust_gpu_driver_lab.Driver
use rust_gpu_driver_lab.Driver.{SimulatedGpuDriver, DriverApiError}

-- The sealed trait `DriverState`, by the markers that implement it.
pub data DriverState : Type 0 where
  offline firmware_loaded ready : DriverState

-- `DriverState::NAME`.
abbrev pub name : DriverState → String
name DriverState.offline = "offline"
name DriverState.firmware_loaded = "firmware-loaded"
name DriverState.ready = "ready"

-- The trait `Operational`, by its implementations.
pub data Operational : DriverState → Type 0 where
  ready_operational : Operational DriverState.ready

pub record TypedDriver (s : DriverState) : Type 0 where
  pub inner : SimulatedGpuDriver

pub record TransitionError (s : DriverState) : Type 0 where
  pub driver : TypedDriver s
  pub error : DriverApiError

abbrev pub into_parts : {s : DriverState} → TransitionError s → TypedDriver s × DriverApiError
into_parts e = (e.driver, e.error)

module _ {s : DriverState} where
  abbrev pub state_name : TypedDriver s → String
  state_name d = name s

  abbrev pub runtime_state : TypedDriver s → DeviceState
  runtime_state d = Driver.device_state d.inner

  abbrev pub change_state : (t : DriverState) → TypedDriver s → TypedDriver t
  change_state t d = record { inner = d.inner }

unfoldable pub new : ℕ → Outcome DriverApiError (TypedDriver DriverState.offline)
new queue_capacity = elim (Driver.new queue_capacity) [
  | ok driver ↦ ok (record { inner = driver })
  | err e ↦ err e
  | panic ↦ panic
]

-- What a transition returns: the driver under its new marker, or the old one with the error.
abbrev pub transition :
    {s : DriverState} (t : DriverState)
    → SimulatedGpuDriver × Outcome DriverApiError (Unit {0})
    → Outcome (TransitionError s) (TypedDriver t)
transition t (inner, ok _) = ok (record { inner = inner })
transition t (inner, err e) = err (record { driver = record { inner = inner }; error = e })
transition t (inner, panic) = panic

unfoldable pub load_firmware :
    TypedDriver DriverState.offline
    → List ℕ
    → Outcome (TransitionError DriverState.offline) (TypedDriver DriverState.firmware_loaded)
load_firmware d image = transition DriverState.firmware_loaded (Driver.load_firmware d.inner image)

unfoldable pub start :
    TypedDriver DriverState.firmware_loaded
    → Outcome (TransitionError DriverState.firmware_loaded) (TypedDriver DriverState.ready)
start d = transition DriverState.ready (Driver.start d.inner)

-- The methods of an operational driver.
module _ {s : DriverState} (operational : Operational s) where
  abbrev pub wrap : {A : Type 0} → Driver.Answer A → TypedDriver s × Outcome DriverApiError A
  wrap (inner, result) = (record { inner = inner }, result)

  unfoldable pub allocate_buffer :
      TypedDriver s → ℕ → TypedDriver s × Outcome DriverApiError BufferId
  allocate_buffer d capacity = wrap (Driver.allocate_buffer d.inner capacity)

  unfoldable pub write_buffer :
      TypedDriver s → BufferId → List ℕ → TypedDriver s × Outcome DriverApiError (Unit {0})
  write_buffer d id bytes = wrap (Driver.write_buffer d.inner id bytes)

  unfoldable pub submit :
      TypedDriver s → BufferId → RawCommand → TypedDriver s × Outcome DriverApiError (Unit {0})
  submit d buffer_id command = wrap (Driver.submit d.inner buffer_id command)

  unfoldable pub next_submission : TypedDriver s → TypedDriver s × Option ValidatedSubmission
  next_submission d =
      let (inner, submission) = Driver.next_submission d.inner in
      (record { inner = inner }, submission)

  unfoldable pub queued_len : TypedDriver s → ℕ
  queued_len d = Driver.queued_len d.inner

  unfoldable pub is_queue_full : TypedDriver s → Bool
  is_queue_full d = Driver.is_queue_full d.inner
