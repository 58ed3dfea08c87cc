-- ===== src/TypedGenericDriver/Operations.antt =====
-- src/typed_generic_driver.rs: the operational methods never find the device in the wrong state.
use rust_gpu_driver_lab.Base.{ℕ, List, ◌≢◌, arith, Outcome, ok, err, panic, map_err}
use rust_gpu_driver_lab.Command.{RawCommand}
use rust_gpu_driver_lab.DeviceState.{DeviceState, StateError}
use rust_gpu_driver_lab.Device.Buffer.{BufferId, DriverError}
use rust_gpu_driver_lab.Submission.{ValidatedSubmission, SubmissionError}
use rust_gpu_driver_lab.QueueBackend.{SubmissionQueue}
use rust_gpu_driver_lab.GenericDriver
use rust_gpu_driver_lab.GenericDriver.{GenericGpuDriver, GenericDriverError}
use rust_gpu_driver_lab.GenericDriver.Gate.{IsReady, ready-ok}
use rust_gpu_driver_lab.TypedDriver.{DriverState, Operational, ready_operational}
use rust_gpu_driver_lab.TypedDriver.Typestate.{Matches}
use rust_gpu_driver_lab.TypedGenericDriver
use rust_gpu_driver_lab.TypedGenericDriver.{
  TypedGenericGpuDriver, GenericTransitionError, runtime_state, transition,
}
use rust_gpu_driver_lab.TypedGenericDriver.Typestate.{Reachable, Reachable-Matches}

Matches-IsReady : (s : DeviceState) → Matches DriverState.ready s → IsReady s
Matches-IsReady (DeviceState.ready info) h = tt
Matches-IsReady DeviceState.offline h = absurd h
Matches-IsReady (DeviceState.firmware_loaded info) h = absurd h
Matches-IsReady DeviceState.faulted h = absurd h

module _ (backend : SubmissionQueue) where
  buffer_error :
      {A : Type 0} (e : StateError) (result : Outcome DriverError A)
      → let as_buffer : DriverError → GenericDriverError backend.Error =
          GenericDriverError.buffer in
        map_err as_buffer result ≢ err (GenericDriverError.state e)
  buffer_error e (ok x) = ground arith
  buffer_error e (err x) = ground arith
  buffer_error e panic = ground arith

  queue_error :
      (e : StateError) (result : Outcome backend.Error (Unit {0}))
      → map_err GenericDriverError.queue result ≢ err (GenericDriverError.state e)
  queue_error e (ok x) = ground arith
  queue_error e (err x) = ground arith
  queue_error e panic = ground arith

  enqueued_error :
      (d : GenericGpuDriver backend) (e : StateError)
      (validated : Outcome SubmissionError ValidatedSubmission)
      → (GenericDriver.enqueue_validated backend d validated).1 ≢ err (GenericDriverError.state e)
  enqueued_error d e (ok s) = queue_error e _
  enqueued_error d e (err x) = ground arith
  enqueued_error d e panic = ground arith

  -- No operational method of a driver that clients can hold returns a state error.
  pub never_state_error :
      {s : DriverState} {d : TypedGenericGpuDriver s backend} (op : Operational s) (capacity : ℕ)
      (id : BufferId) (bytes : List ℕ) (command : RawCommand) (e : StateError)
      → Reachable backend s d
      → let refused : GenericDriverError backend.Error = GenericDriverError.state e in
        ((TypedGenericDriver.allocate_buffer backend op d capacity).1 ≢ err refused)
        × ((TypedGenericDriver.write_buffer backend op d id bytes).1 ≢ err refused)
        × ((TypedGenericDriver.submit backend op d id command).1 ≢ err refused)
  unfolding TypedGenericDriver.allocate_buffer TypedGenericDriver.write_buffer
      TypedGenericDriver.submit GenericDriver.allocate_buffer GenericDriver.write_buffer
      GenericDriver.submit
  never_state_error {d} ready_operational capacity id bytes command e r =
      let (info, is_ready) =
        ready-ok d.inner.controller
          (Matches-IsReady (runtime_state d) (Reachable-Matches backend r)) in
      (
        rw is_ready (buffer_error e _),
        rw is_ready (buffer_error e _),
        rw is_ready (enqueued_error d.inner e _),
      )
