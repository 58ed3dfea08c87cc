-- ===== src/Driver/Traces.antt =====
-- src/driver.rs: what can be observed of the concrete driver, over any sequence of calls.
use rust_gpu_driver_lab.Base.{
  ℕ, ◌≡◌, ap, arith, inl, inr, Outcome-cases, Bool, List, [], ◌∷◌, map, refl, ok, map_err, Outcome,
  Option, returns,
}
use rust_gpu_driver_lab.Command.{RawCommand}
use rust_gpu_driver_lab.DeviceState.{DeviceState}
use rust_gpu_driver_lab.Device.Buffer.{BufferId}
use rust_gpu_driver_lab.Submission.{ValidatedSubmission}
use rust_gpu_driver_lab.Queue
use rust_gpu_driver_lab.Queue.{QueueError, CommandQueue}
use rust_gpu_driver_lab.Queue.Refines as Heap
use rust_gpu_driver_lab.QueueBackend.Instances.{heap_backend, heap_contract}
use rust_gpu_driver_lab.GenericDriver
use rust_gpu_driver_lab.GenericDriver.Ideal
use rust_gpu_driver_lab.GenericDriver.Traces as Generically
use rust_gpu_driver_lab.GenericDriver.Observation.{driver_run-Ideal}
use rust_gpu_driver_lab.Driver
use rust_gpu_driver_lab.Driver.{SimulatedGpuDriver, DriverApiError}
use rust_gpu_driver_lab.Driver.Generic.{
  to_generic, rename, load_firmware_agrees, start_agrees, allocate_buffer_agrees,
  write_buffer_agrees, submit_agrees, next_submission_agrees,
}

pub data Call : Type 0 where
  load_firmware : List ℕ → Call
  start : Call
  allocate_buffer : (capacity : ℕ) → Call
  write_buffer : BufferId → List ℕ → Call
  submit : BufferId → RawCommand → Call
  next_submission queued_len is_queue_full device_state : Call

pub data Reply : Type 0 where
  finished : Outcome DriverApiError (Unit {0}) → Reply
  allocated : Outcome DriverApiError BufferId → Reply
  handed_out : Option ValidatedSubmission → Reply
  counted : ℕ → Reply
  answered : Bool → Reply
  in_state : DeviceState → Reply

unfoldable pub step : SimulatedGpuDriver → Call → SimulatedGpuDriver × Reply
step d (load_firmware image) = let (e, r) = Driver.load_firmware d image in (e, finished r)
step d start = let (e, r) = Driver.start d in (e, finished r)
step d (allocate_buffer capacity) =
    let (e, r) = Driver.allocate_buffer d capacity in (e, allocated r)
step d (write_buffer id bytes) = let (e, r) = Driver.write_buffer d id bytes in (e, finished r)
step d (submit id command) = let (e, r) = Driver.submit d id command in (e, finished r)
step d next_submission = let (e, o) = Driver.next_submission d in (e, handed_out o)
step d queued_len = (d, counted (Driver.queued_len d))
step d is_queue_full = (d, answered (Driver.is_queue_full d))
step d device_state = (d, in_state (Driver.device_state d))

unfoldable pub run : SimulatedGpuDriver → List Call → List Reply
run d [] = []
run d (c ∷ cs) = (step d c).1 ∷ run (step d c).0 cs

-- The same call, and the same reply, of the generic driver.
abbrev pub to_call : Call → Generically.Call
to_call (load_firmware image) = Generically.load_firmware image
to_call start = Generically.start
to_call (allocate_buffer capacity) = Generically.allocate_buffer capacity
to_call (write_buffer id bytes) = Generically.write_buffer id bytes
to_call (submit id command) = Generically.submit id command
to_call next_submission = Generically.next_submission
to_call queued_len = Generically.queued_len
to_call is_queue_full = Generically.is_queue_full
to_call device_state = Generically.device_state

abbrev pub to_reply : Reply → Generically.Reply QueueError
to_reply (finished r) = Generically.finished (map_err rename r)
to_reply (allocated r) = Generically.allocated (map_err rename r)
to_reply (handed_out o) = Generically.handed_out o
to_reply (counted n) = Generically.counted n
to_reply (answered b) = Generically.answered b
to_reply (in_state s) = Generically.in_state s

step-generic :
    (d : SimulatedGpuDriver) (c : Call)
    → Generically.step heap_backend (to_generic d) (to_call c)
      ≡ returns (to_generic (step d c).0, to_reply (step d c).1)
unfolding Generically.step step
step-generic d (load_firmware image) = rw (load_firmware_agrees d image) refl
step-generic d start = rw (start_agrees d) refl
step-generic d (allocate_buffer capacity) = rw (allocate_buffer_agrees d capacity) refl
step-generic d (write_buffer id bytes) = rw (write_buffer_agrees d id bytes) refl
step-generic d (submit id command) = rw (submit_agrees d id command) refl
step-generic d next_submission = rw (next_submission_agrees d) refl
step-generic d queued_len = unfold Driver.queued_len GenericDriver.queued_len in refl
step-generic d is_queue_full = unfold Driver.is_queue_full GenericDriver.is_queue_full in refl
step-generic d device_state = refl

run-generic :
    (d : SimulatedGpuDriver) (cs : List Call)
    → Generically.run heap_backend (to_generic d) (map to_call cs)
      ≡ returns (map to_reply (run d cs))
unfolding Generically.run run
run-generic d [] = refl
run-generic d (c ∷ cs) = rw (step-generic d c, run-generic (step d c).0 cs) refl

-- A new driver is the generic one over a new queue.
pub new_driver :
    (capacity : ℕ) {d : SimulatedGpuDriver}
    → Driver.new capacity ≡ ok d
    → (q : CommandQueue) × (Queue.new capacity ≡ ok q)
      × (GenericDriver.new heap_backend q ≡ to_generic d)
unfolding Driver.new GenericDriver.new
new_driver capacity {d} made = elim (Outcome-cases (Queue.new capacity)) [
  | inl (q, e) ↦ (q, e, ap to_generic (ground arith))
  | inr (inl (x, e)) ↦ absurd (ground arith)
  | inr (inr e) ↦ absurd (ground arith)
]

-- A new `SimulatedGpuDriver` answers every sequence of calls as the ideal driver, but for the names
-- of the errors.
pub simulated_run-Ideal :
    (capacity : ℕ) {d : SimulatedGpuDriver} (cs : List Call)
    → Driver.new capacity ≡ ok d
    → map to_reply (run d cs)
      ≡ map (Generically.map_reply Heap.refusal) (Ideal.run capacity Ideal.new (map to_call cs))
simulated_run-Ideal capacity {d} cs made =
    let (q, new_queue, same) = new_driver capacity made in
    let observed = rw same at (
      driver_run-Ideal heap_contract capacity q (map to_call cs)
        (Heap.new-Represents capacity new_queue).1) in
    cc (run-generic d cs, observed)
