-- ===== src/GenericDriver/Traces.antt =====
-- src/generic_driver.rs: every public method of the driver, and what its caller sees, over sequences
-- of calls.
use rust_gpu_driver_lab.Base.{
  ℕ, Bool, List, [], ◌∷◌, Option, Run, returns, panicked, and_then, Outcome, map_err,
}
use rust_gpu_driver_lab.Command.{RawCommand}
use rust_gpu_driver_lab.DeviceState.{DeviceState}
use rust_gpu_driver_lab.Device.Buffer.{BufferId}
use rust_gpu_driver_lab.Submission.{ValidatedSubmission}
use rust_gpu_driver_lab.QueueBackend.{SubmissionQueue}
use rust_gpu_driver_lab.GenericDriver
use rust_gpu_driver_lab.GenericDriver.{
  GenericGpuDriver, GenericDriverError, state, buffer, submission, queue,
}

pub data Call : Type 0 where
  load_firmware : List ℕ → Call
  start : Call
  allocate_buffer : (capacity : ℕ) → Call
  write_buffer : BufferId → List ℕ → Call
  submit : BufferId → RawCommand → Call
  next_submission peek_submission queued_len is_queue_empty is_queue_full device_state : Call

pub data Reply (E : Type 0) : Type 0 where
  finished : Outcome (GenericDriverError E) (Unit {0}) → Reply E
  allocated : Outcome (GenericDriverError E) BufferId → Reply E
  handed_out : Option ValidatedSubmission → Reply E
  counted : ℕ → Reply E
  answered : Bool → Reply E
  in_state : DeviceState → Reply E

-- Replies of one backend, with the errors of another.
abbrev pub rename : {E F : Type 0} → (E → F) → GenericDriverError E → GenericDriverError F
rename f (state e) = state e
rename f (buffer e) = buffer e
rename f (submission e) = submission e
rename f (queue e) = queue (f e)

abbrev pub map_reply : {E F : Type 0} → (E → F) → Reply E → Reply F
map_reply f (finished r) = finished (map_err (rename f) r)
map_reply f (allocated r) = allocated (map_err (rename f) r)
map_reply f (handed_out o) = handed_out o
map_reply f (counted n) = counted n
map_reply f (answered b) = answered b
map_reply f (in_state s) = in_state s

module _ (backend : SubmissionQueue) where
  -- The driver after a call beside the reply. Only a panic of the queue stops the program.
  abbrev pub Stepped : Type 0
  Stepped = Run (GenericGpuDriver backend × Reply backend.Error)

  unfoldable pub step : GenericGpuDriver backend → Call → Stepped
  step d (load_firmware image) =
      let (e, r) = GenericDriver.load_firmware backend d image in returns (e, finished r)
  step d start = let (e, r) = GenericDriver.start backend d in returns (e, finished r)
  step d (allocate_buffer capacity) =
      let (e, r) = GenericDriver.allocate_buffer backend d capacity in returns (e, allocated r)
  step d (write_buffer id xs) =
      let (e, r) = GenericDriver.write_buffer backend d id xs in returns (e, finished r)
  step d (submit id command) =
      let (e, r) = GenericDriver.submit backend d id command in returns (e, finished r)
  step d next_submission =
      and_then (GenericDriver.next_submission backend d) λ (e, o). returns (e, handed_out o)
  step d peek_submission =
      and_then (GenericDriver.peek_submission backend d) λ o. returns (d, handed_out o)
  step d queued_len = returns (d, counted (GenericDriver.queued_len backend d))
  step d is_queue_empty = returns (d, answered (GenericDriver.is_queue_empty backend d))
  step d is_queue_full = returns (d, answered (GenericDriver.is_queue_full backend d))
  step d device_state = returns (d, in_state (GenericDriver.device_state d))

  abbrev pub prepend :
      Reply backend.Error → Run (List (Reply backend.Error)) → Run (List (Reply backend.Error))
  prepend r (returns rs) = returns (r ∷ rs)
  prepend r panicked = panicked

  unfoldable pub run : GenericGpuDriver backend → List Call → Run (List (Reply backend.Error))
  run d [] = returns []
  run d (c ∷ cs) = and_then (step d c) λ (e, r). prepend r (run e cs)
