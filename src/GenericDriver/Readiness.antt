-- ===== src/GenericDriver/Readiness.antt =====
-- src/generic_driver.rs: before the device is ready nothing is queued.
use rust_gpu_driver_lab.Base.{
  ℕ, ◌≡◌, refl, ◌∙◌, ap, arith, Bool, true, false, List, [], ◌∷◌, length, Outcome, ok, err, panic,
  Run, returns, and_then, none,
}
use rust_gpu_driver_lab.DeviceState as Controller
use rust_gpu_driver_lab.DeviceState.{DeviceState, FirmwareInfo, StateError, DeviceController}
use rust_gpu_driver_lab.Device.Invariant.{IsValid, default-IsValid}
use rust_gpu_driver_lab.Submission.{
  SubmissionError, SubmissionRequest, ValidatedSubmission, validate_submission,
}
use rust_gpu_driver_lab.Fifo
use rust_gpu_driver_lab.QueueBackend.{SubmissionQueue, Contract}
use rust_gpu_driver_lab.GenericDriver
use rust_gpu_driver_lab.GenericDriver.{GenericGpuDriver}
use rust_gpu_driver_lab.GenericDriver.Ideal
use rust_gpu_driver_lab.GenericDriver.Ideal.{IdealDriver, memory_info}
use rust_gpu_driver_lab.GenericDriver.Traces
use rust_gpu_driver_lab.GenericDriver.Traces.{
  Call, load_firmware, start, allocate_buffer, write_buffer, submit, next_submission,
  peek_submission, queued_len, is_queue_empty, is_queue_full, device_state,
}
use rust_gpu_driver_lab.GenericDriver.Agreement.{ideal}
use rust_gpu_driver_lab.GenericDriver.Refines.{step-Agrees}

abbrev pub is_ready : DeviceState → Bool
is_ready (DeviceState.ready info) = true
is_ready _ = false

-- A device that is not ready after a transition was not ready before it.
load_firmware-not_ready :
    (s : DeviceState) (image : List ℕ)
    → is_ready (Controller.load_firmware (record { state = s }) image).0.state ≡ false
    → is_ready s ≡ false
unfolding Controller.load_firmware
load_firmware-not_ready DeviceState.offline image h = refl
load_firmware-not_ready (DeviceState.firmware_loaded info) image h = refl
load_firmware-not_ready (DeviceState.ready info) image h = absurd (ground arith)
load_firmware-not_ready DeviceState.faulted image h = refl

start-not_ready :
    (s : DeviceState)
    → is_ready (Controller.start (record { state = s })).0.state ≡ false
    → is_ready s ≡ false
unfolding Controller.start
start-not_ready DeviceState.offline h = refl
start-not_ready (DeviceState.firmware_loaded info) h = refl
start-not_ready (DeviceState.ready info) h = absurd (ground arith)
start-not_ready DeviceState.faulted h = refl

ensure_ready-is_ready :
    (s : DeviceState) {info : FirmwareInfo}
    → Controller.ensure_ready (record { state = s }) ≡ ok info
    → is_ready s ≡ true
unfolding Controller.ensure_ready
ensure_ready-is_ready DeviceState.offline h = absurd (ground arith)
ensure_ready-is_ready (DeviceState.firmware_loaded i) h = absurd (ground arith)
ensure_ready-is_ready (DeviceState.ready i) h = refl
ensure_ready-is_ready DeviceState.faulted h = absurd (ground arith)

-- Nothing waits before the device is ready.
abbrev pub IsIdle : IdealDriver → Type 0
IsIdle d = is_ready d.controller.state ≡ false → d.waiting ≡ []

gate-IsIdle :
    {A : Type 0} (ready : Outcome StateError FirmwareInfo) (d : IdealDriver) (rest : Ideal.Answer A)
    → IsIdle d
    → ((info : FirmwareInfo) → ready ≡ ok info → IsIdle rest.0)
    → IsIdle (Ideal.gate ready d rest).0
gate-IsIdle (ok info) d rest h k = k info refl
gate-IsIdle (err e) d rest h k = h
gate-IsIdle panic d rest h k = h

wait-controller :
    (c : ℕ) (d : IdealDriver) (made : Outcome SubmissionError ValidatedSubmission)
    → (Ideal.wait c d made).0.controller ≡ d.controller
wait-controller c d (ok s) = refl
wait-controller c d (err e) = refl
wait-controller c d panic = refl

step-IsIdle : (c : ℕ) (d : IdealDriver) (call : Call) → IsIdle d → IsIdle (Ideal.step c d call).0
unfolding Ideal.step
step-IsIdle c d (load_firmware image) h =
    λ n. h (load_firmware-not_ready d.controller.state image n)
step-IsIdle c d start h = λ n. h (start-not_ready d.controller.state n)
step-IsIdle c d (allocate_buffer size) h =
    gate-IsIdle (Controller.ensure_ready d.controller) d _ h λ info e. h
step-IsIdle c d (write_buffer id xs) h =
    gate-IsIdle (Controller.ensure_ready d.controller) d _ h λ info e. h
step-IsIdle c d (submit id command) h =
    let request : SubmissionRequest = record { buffer_id = id; command = command } in
    let made = validate_submission d.memory request in
    gate-IsIdle (Controller.ensure_ready d.controller) d (Ideal.wait c d made) h λ info e n.
      let same = ap (λ k. is_ready k.state) (wait-controller c d made) in
      absurd (ground (arith, same, n, ensure_ready-is_ready d.controller.state e))
step-IsIdle c d next_submission h = λ n. unfold Fifo.dequeue in rw (h n) refl
step-IsIdle c d peek_submission h = h
step-IsIdle c d queued_len h = h
step-IsIdle c d is_queue_empty h = h
step-IsIdle c d is_queue_full h = h
step-IsIdle c d device_state h = h

module _ (backend : SubmissionQueue) where
  -- The driver after a sequence of calls.
  unfoldable pub finally : GenericGpuDriver backend → List Call → Run (GenericGpuDriver backend)
  finally d [] = returns d
  finally d (call ∷ calls) = and_then (Traces.step backend d call) λ (e, r). finally e calls

module _ {backend : SubmissionQueue} (contract : Contract backend) (c : ℕ) where
  finally-IsIdle :
      (d : GenericGpuDriver backend) (xs : List ValidatedSubmission) (calls : List Call)
      → IsValid d.device
      → contract.Represents c d.queue xs
      → IsIdle (ideal contract c d xs)
      → (e : GenericGpuDriver backend) × (left : List ValidatedSubmission) × (finally backend d
            calls
          ≡ returns e)
        × contract.Represents c e.queue left
        × IsIdle (ideal contract c e left)
  unfolding finally
  finally-IsIdle d xs [] v r h = (d, xs, refl, r, h)
  finally-IsIdle d xs (call ∷ calls) v r h =
      let s = step-Agrees contract c d xs v r call in
      let idle : IsIdle (ideal contract c s.next s.left) =
        rw s.stands at (step-IsIdle c (ideal contract c d xs) call h) in
      let (e, left, ends, queued, last) =
        finally-IsIdle s.next s.left calls s.valid s.queued idle in
      (e, left, (rw s.returned ends), queued, last)

  -- Calls on a new driver over an empty queue that keeps its contract all return, and if the device is
  -- not ready after them then the queue is empty and `peek_submission` finds nothing in it.
  pub unready_queue_is_empty :
      (q : backend.Queue) (calls : List Call)
      → contract.Represents c q []
      → (e : GenericGpuDriver backend) × (finally backend (GenericDriver.new backend q) calls
          ≡ returns e)
        × (is_ready e.controller.state ≡ false
            → (GenericDriver.queued_len backend e ≡ 0)
              × (GenericDriver.peek_submission backend e ≡ returns none))
  unfolding GenericDriver.new GenericDriver.queued_len GenericDriver.peek_submission
  unready_queue_is_empty q calls r =
      let (e, left, ends, queued, idle) =
        finally-IsIdle (GenericDriver.new backend q) [] calls default-IsValid r (λ n. refl) in
      (
        e,
        ends,
        λ n. (
          contract.len_length c e.queue left queued ∙ ap length (idle n),
          contract.peek_returns c e.queue left queued ∙ ap (λ xs. returns (Fifo.peek xs)) (idle n),
        ),
      )
