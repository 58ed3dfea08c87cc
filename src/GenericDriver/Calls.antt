-- ===== src/GenericDriver/Calls.antt =====
-- src/generic_driver.rs: what every call guarantees on a driver over a queue that keeps its contract.
use rust_gpu_driver_lab.Base.{
  arith, ℕ, ◌≡◌, ◌≢◌, ◌<◌, List, ok, err, panic, Outcome-cases, inl, inr, sym, ◌∙◌, map_err-panic,
  ending, ending-state, panic-ending, Run, returns, panicked, isize_max, Option,
}
use rust_gpu_driver_lab.Command.{RawCommand}
use rust_gpu_driver_lab.DeviceState as Controller
use rust_gpu_driver_lab.DeviceState.Lifecycle.{
  Ends-IsLegal, Ends-ne-panic, load_firmware-Ends, start-Ends, ensure_ready-ne-panic,
}
use rust_gpu_driver_lab.Device
use rust_gpu_driver_lab.Device.Buffer.{BufferId}
use rust_gpu_driver_lab.Device.Calls as DeviceCalls
use rust_gpu_driver_lab.Device.Capacity.{HasCapacity-write_buffer, HasCapacity-allocate_buffer}
use rust_gpu_driver_lab.Submission.{
  ValidatedSubmission, SubmissionRequest, validate_submission, device_info,
}
use rust_gpu_driver_lab.Submission.Laws.{validate_submission-ne-panic}
use rust_gpu_driver_lab.Fifo
use rust_gpu_driver_lab.QueueBackend.{SubmissionQueue, Contract}
use rust_gpu_driver_lab.GenericDriver
use rust_gpu_driver_lab.GenericDriver.{GenericGpuDriver, GenericDriverError, Answer}
use rust_gpu_driver_lab.GenericDriver.Invariant.{
  IsValid, validated-IsBacked, device-IsValid, enqueue-IsValid, dequeue-IsValid,
}

-- A call that may change the driver.
pub data Call : Type 0 where
  load_firmware : List ℕ → Call
  start : Call
  allocate_buffer : (capacity : ℕ) → Call
  write_buffer : BufferId → List ℕ → Call
  submit : BufferId → RawCommand → Call
  next_submission : Call

module _ (backend : SubmissionQueue) where
  -- How `next_submission` ended.
  abbrev taken :
      GenericGpuDriver backend
      → Run (GenericGpuDriver backend × Option ValidatedSubmission)
      → Answer backend (Unit {0})
  taken d (returns (d', s)) = (d', ok tt)
  taken d panicked = (d, panic)

  unfoldable pub apply : GenericGpuDriver backend → Call → Answer backend (Unit {0})
  apply d (load_firmware image) = GenericDriver.load_firmware backend d image
  apply d start = GenericDriver.start backend d
  apply d (allocate_buffer capacity) = ending (GenericDriver.allocate_buffer backend d capacity)
  apply d (write_buffer id bytes) = GenericDriver.write_buffer backend d id bytes
  apply d (submit id command) = GenericDriver.submit backend d id command
  apply d next_submission = taken d (GenericDriver.next_submission backend d)

-- Only an allocation can panic, and only past the longest vector.
abbrev pub IsOversized : Call → Type 0
IsOversized (allocate_buffer capacity) = isize_max < capacity
IsOversized _ = ⊥

module _ {backend : SubmissionQueue} (contract : Contract backend) (c : ℕ) where
  -- What every call guarantees.
  pub record Keeps (call : Call) (r : Answer backend (Unit {0})) : Type 0 where
    pub after : List ValidatedSubmission
    pub valid : IsValid contract c r.0 after
    pub no_panic : r.1 ≡ panic → IsOversized call

module _ {backend : SubmissionQueue} (contract : Contract backend) (c : ℕ)
    (d : GenericGpuDriver backend) (xs : List ValidatedSubmission)
    (v : IsValid contract c d xs) where
  same-Keeps :
      (call : Call) (e : GenericDriverError backend.Error) → Keeps contract c call (d, err e)
  same-Keeps call e = record { after = xs; valid = v; no_panic = λ h. cc }

  load_firmware-Keeps :
      (image : List ℕ)
      → Keeps contract c (load_firmware image) (GenericDriver.load_firmware backend d image)
  unfolding GenericDriver.load_firmware
  load_firmware-Keeps image =
      let ends = load_firmware-Ends image d.controller.state in
      record {
        after = xs;
        valid = record {
          device = v.device;
          firmware = Ends-IsLegal ends v.firmware;
          queued = v.queued;
          backed = v.backed;
        };
        no_panic = λ h. absurd (Ends-ne-panic ends (map_err-panic _ _ h));
      }

  start-Keeps : Keeps contract c start (GenericDriver.start backend d)
  unfolding GenericDriver.start
  start-Keeps =
      let ends = start-Ends d.controller.state in
      record {
        after = xs;
        valid = record {
          device = v.device;
          firmware = Ends-IsLegal ends v.firmware;
          queued = v.queued;
          backed = v.backed;
        };
        no_panic = λ h. absurd (Ends-ne-panic ends (map_err-panic _ _ h));
      }

  allocate_buffer-Keeps :
      (n : ℕ)
      → Keeps contract c (allocate_buffer n) (ending (GenericDriver.allocate_buffer backend d n))
  unfolding GenericDriver.allocate_buffer
  allocate_buffer-Keeps n = elim (Outcome-cases (Controller.ensure_ready d.controller)) [
    | inl (info, e) ↦ rw e (record {
      after = xs;
      valid = rw ending-state (
          device-IsValid contract c d xs v (Device.allocate_buffer d.device n).0
            (DeviceCalls.allocate_buffer-IsValid d.device v.device n)
            (λ id size. HasCapacity-allocate_buffer d.device n id size v.device));
      no_panic = λ h.
          DeviceCalls.allocate_buffer-panic d.device v.device n
            (map_err-panic _ _ (panic-ending _ h));
    })
    | inr (inl (e, h)) ↦ rw h (same-Keeps _ _)
    | inr (inr h) ↦ absurd (ensure_ready-ne-panic d.controller h)
  ]

  write_buffer-Keeps :
      (id : BufferId) (bytes : List ℕ)
      → Keeps contract c (write_buffer id bytes) (GenericDriver.write_buffer backend d id bytes)
  unfolding GenericDriver.write_buffer
  write_buffer-Keeps id bytes = elim (Outcome-cases (Controller.ensure_ready d.controller)) [
    | inl (info, e) ↦ rw e (record {
      after = xs;
      valid =
          device-IsValid contract c d xs v (Device.write_buffer d.device id bytes).0
            (DeviceCalls.write_buffer-IsValid d.device v.device id bytes)
            (λ j size. HasCapacity-write_buffer d.device id j bytes size);
      no_panic =
          λ h. DeviceCalls.write_buffer-ne-panic d.device v.device id bytes (map_err-panic _ _ h);
    })
    | inr (inl (e, h)) ↦ rw h (same-Keeps _ _)
    | inr (inr h) ↦ absurd (ensure_ready-ne-panic d.controller h)
  ]

  -- The implementation of the queue does not panic, whatever it answers.
  enqueue-ne-panic : (s : ValidatedSubmission) → (backend.enqueue d.queue s).1 ≢ panic
  enqueue-ne-panic s h =
      Fifo-ne-panic (map_err-panic _ _ (sym (contract.enqueue_result c d.queue xs s v.queued) ∙ h))
    where
      Fifo-ne-panic : (Fifo.enqueue c xs s).1 ≢ panic
      Fifo-ne-panic = unfold Fifo.enqueue in ground arith

  submit-Keeps :
      (id : BufferId) (command : RawCommand)
      → Keeps contract c (submit id command) (GenericDriver.submit backend d id command)
  unfolding GenericDriver.submit
  submit-Keeps id command = elim (Outcome-cases (Controller.ensure_ready d.controller)) [
    | inl (info, e) ↦
        let request : SubmissionRequest = record { buffer_id = id; command = command } in
        rw e (elim (Outcome-cases (validate_submission d.device request)) [
          | inl (s, made) ↦ rw made (record {
            after = (Fifo.enqueue c xs s).0;
            valid =
                enqueue-IsValid contract c d xs v s
                  (validated-IsBacked d.device request v.device made);
            no_panic = λ h. enqueue-ne-panic s (map_err-panic _ _ h);
          })
          | inr (inl (e, refused)) ↦ rw refused (same-Keeps _ _)
          | inr (inr h) ↦ absurd (validate_submission-ne-panic d.device request h)
        ])
    | inr (inl (e, h)) ↦ rw h (same-Keeps _ _)
    | inr (inr h) ↦ absurd (ensure_ready-ne-panic d.controller h)
  ]

  next_submission-Keeps :
      Keeps contract c next_submission (taken backend d (GenericDriver.next_submission backend d))
  unfolding GenericDriver.next_submission
  next_submission-Keeps =
      let (q, e, r) = contract.dequeue_returns c d.queue xs v.queued in
      rw e (record {
        after = (Fifo.dequeue xs).0;
        valid = dequeue-IsValid contract c d xs v q r;
        no_panic = λ h. cc;
      })

  pub apply-Keeps : (call : Call) → Keeps contract c call (apply backend d call)
  unfolding apply
  apply-Keeps (load_firmware image) = load_firmware-Keeps image
  apply-Keeps start = start-Keeps
  apply-Keeps (allocate_buffer n) = allocate_buffer-Keeps n
  apply-Keeps (write_buffer id bytes) = write_buffer-Keeps id bytes
  apply-Keeps (submit id command) = submit-Keeps id command
  apply-Keeps next_submission = next_submission-Keeps
