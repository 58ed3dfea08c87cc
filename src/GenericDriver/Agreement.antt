-- ===== src/GenericDriver/Agreement.antt =====
-- src/generic_driver.rs: when a call on a driver agrees with the ideal driver.
use rust_gpu_driver_lab.Base.{ℕ, ◌≡◌, List, refl, Outcome, ok, err, panic, map_err, returns}
use rust_gpu_driver_lab.DeviceState.{StateError, FirmwareInfo}
use rust_gpu_driver_lab.Device.{GpuDevice}
use rust_gpu_driver_lab.Device.Buffer.{DriverError}
use rust_gpu_driver_lab.Device.Invariant.{IsValid}
use rust_gpu_driver_lab.Device.Memory.Refines.{abstract}
use rust_gpu_driver_lab.Device.Memory.Steps.{valid_len-abstract}
use rust_gpu_driver_lab.Submission.{
  SubmissionRequest, ValidatedSubmission, validate_submission, device_info,
}
use rust_gpu_driver_lab.Fifo.{Refusal}
use rust_gpu_driver_lab.QueueBackend.{SubmissionQueue, Contract}
use rust_gpu_driver_lab.GenericDriver
use rust_gpu_driver_lab.GenericDriver.{
  GenericGpuDriver, GenericDriverError, state, buffer, submission, queue,
}
use rust_gpu_driver_lab.GenericDriver.Ideal
use rust_gpu_driver_lab.GenericDriver.Ideal.{IdealDriver, memory_info}
use rust_gpu_driver_lab.GenericDriver.Traces
use rust_gpu_driver_lab.GenericDriver.Traces.{
  Call, load_firmware, start, allocate_buffer, write_buffer, submit, next_submission,
  peek_submission, queued_len, is_queue_empty, is_queue_full, device_state, Reply, finished,
  allocated, handed_out, counted, answered, in_state, map_reply, rename,
}

-- Renaming the errors of the queue touches no other error.
module _ {E F A : Type 0} (f : E → F) where
  pub rename-state :
      (r : Outcome StateError A)
      → ◌≡◌ {A = Outcome (GenericDriverError F) A}
          (map_err state r)
          (map_err (rename f) (map_err state r))
  rename-state (ok a) = refl
  rename-state (err e) = refl
  rename-state panic = refl

  pub rename-buffer :
      (r : Outcome DriverError A)
      → ◌≡◌ {A = Outcome (GenericDriverError F) A}
          (map_err buffer r)
          (map_err (rename f) (map_err buffer r))
  rename-buffer (ok a) = refl
  rename-buffer (err e) = refl
  rename-buffer panic = refl

  pub rename-queue :
      (r : Outcome E A) → map_err queue (map_err f r) ≡ map_err (rename f) (map_err queue r)
  rename-queue (ok a) = refl
  rename-queue (err e) = refl
  rename-queue panic = refl

-- Validation gives on a device what it gives on the memory.
pub validate-abstract :
    (d : GpuDevice) (request : SubmissionRequest)
    → IsValid d
    → validate_submission (abstract d) request ≡ validate_submission d request
unfolding validate_submission
validate-abstract d request v = rw (valid_len-abstract d v request.buffer_id) refl

module _ {backend : SubmissionQueue} (contract : Contract backend) (c : ℕ) where
  -- The ideal driver that a driver stands for, when its queue stands for `xs`.
  abbrev pub ideal : GenericGpuDriver backend → List ValidatedSubmission → IdealDriver
  ideal d xs = record { controller = d.controller; memory = abstract d.device; waiting = xs }

  -- What a call did and what it should have done.
  pub record Agrees (got : Traces.Stepped backend) (due : IdealDriver × Reply Refusal)
      : Type 0 where
    pub next : GenericGpuDriver backend
    pub left : List ValidatedSubmission
    pub returned : got ≡ returns (next, map_reply contract.refusal due.1)
    pub stands : due.0 ≡ ideal next left
    pub valid : IsValid next.device
    pub queued : contract.Represents c next.queue left

module _ {backend : SubmissionQueue} (contract : Contract backend) (c : ℕ)
    (d : GenericGpuDriver backend) (xs : List ValidatedSubmission) (v : IsValid d.device)
    (r : contract.Represents c d.queue xs) where
  -- A call that changes nothing.
  pub same :
      (reply : Reply Refusal)
      → Agrees contract c
          (returns (d, map_reply contract.refusal reply))
          (ideal contract c d xs, reply)
  same reply = record { next = d; left = xs; returned = refl; stands = refl; valid = v; queued = r }

  -- A method behind the gate, by what it does once the device is ready.
  pub gated :
      {A : Type 0} (ready : Outcome StateError FirmwareInfo)
      (reply : (E : Type 0) → Outcome (GenericDriverError E) A → Reply E)
      (named : (o : Outcome (GenericDriverError Refusal) A)
        → reply backend.Error (map_err (rename contract.refusal) o)
          ≡ map_reply contract.refusal (reply Refusal o))
      (body : GenericDriver.Answer backend A) (due : Ideal.Answer A)
      → Agrees contract c
          (returns (body.0, reply backend.Error body.1))
          (due.0, reply Refusal due.1)
      → let got = GenericDriver.gate backend ready d body in
        let should = Ideal.gate ready (ideal contract c d xs) due in
        Agrees contract c
          (returns (got.0, reply backend.Error got.1))
          (should.0, reply Refusal should.1)
  gated (ok info) reply named body due h = h
  gated (err e) reply named body due h =
      rw (named (err (state e))) (same (reply Refusal (err (state e))))
  gated panic reply named body due h = rw (named panic) (same (reply Refusal panic))
