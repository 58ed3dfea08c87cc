-- ===== src/GenericDriver/Refines.antt =====
-- src/generic_driver.rs: over any sequence of calls the driver answers as the ideal driver, whatever
-- the queue, as long as that keeps its contract.
use rust_gpu_driver_lab.Base.{
  ℕ, ◌==◌, List, length, refl, ap, ◌∙◌, Outcome, ok, err, panic, map_err, returns,
}
use rust_gpu_driver_lab.Command.{RawCommand}
use rust_gpu_driver_lab.DeviceState as Controller
use rust_gpu_driver_lab.DeviceState.{StateError, FirmwareInfo}
use rust_gpu_driver_lab.Device
use rust_gpu_driver_lab.Device.{GpuDevice}
use rust_gpu_driver_lab.Device.Buffer.{BufferId}
use rust_gpu_driver_lab.Device.Invariant.{IsValid}
use rust_gpu_driver_lab.Device.Calls.{allocate_buffer-IsValid, write_buffer-IsValid}
use rust_gpu_driver_lab.Device.Memory.Steps.{write-abstract, allocate-abstract}
use rust_gpu_driver_lab.Submission.{
  SubmissionError, SubmissionRequest, ValidatedSubmission, validate_submission, device_info,
}
use rust_gpu_driver_lab.Fifo
use rust_gpu_driver_lab.Fifo.{Refusal}
use rust_gpu_driver_lab.QueueBackend.{SubmissionQueue, Contract}
use rust_gpu_driver_lab.GenericDriver
use rust_gpu_driver_lab.GenericDriver.{
  GenericGpuDriver, GenericDriverError, state, buffer, submission, queue,
}
use rust_gpu_driver_lab.GenericDriver.Ideal
use rust_gpu_driver_lab.GenericDriver.Ideal.{IdealDriver, memory_info}
use rust_gpu_driver_lab.GenericDriver.Traces
use rust_gpu_driver_lab.GenericDriver.Traces.{
  Call, load_firmware, start, allocate_buffer, write_buffer, submit, next_submission,
  peek_submission, queued_len, is_queue_empty, is_queue_full, device_state, Reply, finished,
  allocated, handed_out, counted, answered, in_state, map_reply, rename,
}
use rust_gpu_driver_lab.GenericDriver.Agreement.{
  rename-state, rename-buffer, rename-queue, validate-abstract, ideal, Agrees, same, gated,
}

module _ {backend : SubmissionQueue} (contract : Contract backend) (c : ℕ)
    (d : GenericGpuDriver backend) (xs : List ValidatedSubmission) (v : IsValid d.device)
    (r : contract.Represents c d.queue xs) where
  load_firmware-Agrees :
      (image : List ℕ)
      → Agrees contract c
          (Traces.step backend d (load_firmware image))
          (Ideal.step c (ideal contract c d xs) (load_firmware image))
  unfolding Traces.step Ideal.step GenericDriver.load_firmware
  load_firmware-Agrees image =
      let changed = Controller.load_firmware d.controller image in
      let next = record d { controller = changed.0 } in
      record {
        next = next;
        left = xs;
        returned = ap (λ t. returns (next, finished t)) (rename-state contract.refusal changed.1);
        stands = refl;
        valid = v;
        queued = r;
      }

  start-Agrees :
      Agrees contract c (Traces.step backend d start) (Ideal.step c (ideal contract c d xs) start)
  unfolding Traces.step Ideal.step GenericDriver.start
  start-Agrees =
      let changed = Controller.start d.controller in
      let next = record d { controller = changed.0 } in
      record {
        next = next;
        left = xs;
        returned = ap (λ t. returns (next, finished t)) (rename-state contract.refusal changed.1);
        stands = refl;
        valid = v;
        queued = r;
      }

  allocate_buffer-Agrees :
      (n : ℕ)
      → Agrees contract c
          (Traces.step backend d (allocate_buffer n))
          (Ideal.step c (ideal contract c d xs) (allocate_buffer n))
  unfolding Traces.step Ideal.step GenericDriver.allocate_buffer
  allocate_buffer-Agrees n =
      let made = Device.allocate_buffer d.device n in
      let next = record d { device = made.0 } in
      rw (allocate-abstract d.device v n) (
        gated contract c d xs v r (Controller.ensure_ready d.controller) (λ E. allocated)
          (λ o. refl) (next, map_err buffer made.1)
          (ideal contract c next xs, map_err buffer made.1)
          (record {
            next = next;
            left = xs;
            returned =
                ap (λ t. returns (next, allocated t)) (rename-buffer contract.refusal made.1);
            stands = refl;
            valid = allocate_buffer-IsValid d.device v n;
            queued = r;
          }))

  write_buffer-Agrees :
      (id : BufferId) (bytes : List ℕ)
      → Agrees contract c
          (Traces.step backend d (write_buffer id bytes))
          (Ideal.step c (ideal contract c d xs) (write_buffer id bytes))
  unfolding Traces.step Ideal.step GenericDriver.write_buffer
  write_buffer-Agrees id bytes =
      let made = Device.write_buffer d.device id bytes in
      let next = record d { device = made.0 } in
      rw (write-abstract d.device v id bytes) (
        gated contract c d xs v r (Controller.ensure_ready d.controller) (λ E. finished) (λ o. refl)
          (next, map_err buffer made.1) (ideal contract c next xs, map_err buffer made.1)
          (record {
            next = next;
            left = xs;
            returned = ap (λ t. returns (next, finished t)) (rename-buffer contract.refusal made.1);
            stands = refl;
            valid = write_buffer-IsValid d.device v id bytes;
            queued = r;
          }))

  -- Queueing what validation made, or passing its error on.
  wait-Agrees :
      (made : Outcome SubmissionError ValidatedSubmission)
      → let got = GenericDriver.enqueue_validated backend d made in
        let should = Ideal.wait c (ideal contract c d xs) made in
        Agrees contract c (returns (got.0, finished got.1)) (should.0, finished should.1)
  wait-Agrees (ok s) =
      let next = record d { queue = (backend.enqueue d.queue s).0 } in
      record {
        next = next;
        left = (Fifo.enqueue c xs s).0;
        returned =
            ap (λ t. returns (next, finished t))
              (ap (map_err queue) (contract.enqueue_result c d.queue xs s r)
                ∙ rename-queue contract.refusal (Fifo.enqueue c xs s).1);
        stands = refl;
        valid = v;
        queued = contract.enqueue_state c d.queue xs s r;
      }
  wait-Agrees (err e) = same contract c d xs v r (finished (err (submission e)))
  wait-Agrees panic = same contract c d xs v r (finished panic)

  submit-Agrees :
      (id : BufferId) (command : RawCommand)
      → Agrees contract c
          (Traces.step backend d (submit id command))
          (Ideal.step c (ideal contract c d xs) (submit id command))
  unfolding Traces.step Ideal.step GenericDriver.submit
  submit-Agrees id command =
      let request : SubmissionRequest = record { buffer_id = id; command = command } in
      let made = validate_submission d.device request in
      rw (validate-abstract d.device request v) (
        gated contract c d xs v r (Controller.ensure_ready d.controller) (λ E. finished) (λ o. refl)
          (GenericDriver.enqueue_validated backend d made)
          (Ideal.wait c (ideal contract c d xs) made) (wait-Agrees made))

  next_submission-Agrees :
      Agrees contract c
        (Traces.step backend d next_submission)
        (Ideal.step c (ideal contract c d xs) next_submission)
  unfolding Traces.step Ideal.step GenericDriver.next_submission
  next_submission-Agrees =
      let (q, e, queued) = contract.dequeue_returns c d.queue xs r in
      record {
        next = record d { queue = q };
        left = (Fifo.dequeue xs).0;
        returned = rw e refl;
        stands = refl;
        valid = v;
        queued = queued;
      }

  peek_submission-Agrees :
      Agrees contract c
        (Traces.step backend d peek_submission)
        (Ideal.step c (ideal contract c d xs) peek_submission)
  unfolding Traces.step Ideal.step GenericDriver.peek_submission
  peek_submission-Agrees =
      rw (contract.peek_returns c d.queue xs r)
        (same contract c d xs v r (handed_out (Fifo.peek xs)))

  pub step-Agrees :
      (call : Call)
      → Agrees contract c (Traces.step backend d call) (Ideal.step c (ideal contract c d xs) call)
  unfolding Traces.step Ideal.step GenericDriver.queued_len GenericDriver.is_queue_empty
      GenericDriver.is_queue_full
  step-Agrees (load_firmware image) = load_firmware-Agrees image
  step-Agrees start = start-Agrees
  step-Agrees (allocate_buffer n) = allocate_buffer-Agrees n
  step-Agrees (write_buffer id bytes) = write_buffer-Agrees id bytes
  step-Agrees (submit id command) = submit-Agrees id command
  step-Agrees next_submission = next_submission-Agrees
  step-Agrees peek_submission = peek_submission-Agrees
  step-Agrees queued_len =
      rw (contract.len_length c d.queue xs r) (same contract c d xs v r (counted (length xs)))
  step-Agrees is_queue_empty =
      rw (contract.is_empty_length c d.queue xs r)
        (same contract c d xs v r (answered (length xs == 0)))
  step-Agrees is_queue_full =
      rw (contract.is_full_length c d.queue xs r)
        (same contract c d xs v r (answered (length xs == c)))
  step-Agrees device_state = same contract c d xs v r (in_state d.controller.state)
