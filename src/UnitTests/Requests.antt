-- ===== src/UnitTests/Requests.antt =====
-- src/queue.rs, src/static_queue.rs: how their unit tests make a submission.
use rust_gpu_driver_lab.Base.{ℕ, replicate}
use rust_gpu_driver_lab.Device
use rust_gpu_driver_lab.Device.{default}
use rust_gpu_driver_lab.Submission.{ValidatedSubmission, validate_submission, device_info}
use rust_gpu_driver_lab.UnitTests.{Unwrap, UnwrapCall}

-- `make_submission` for a buffer of some size, and what the test does with the submission.
abbrev pub MakeSubmission : ℕ → ℕ → (ValidatedSubmission → Type 0) → Type 0
MakeSubmission size id rest = UnwrapCall (Device.allocate_buffer default size) λ device buffer_id.
    UnwrapCall (Device.write_buffer device buffer_id (replicate size 0)) λ device _.
      Unwrap
        (validate_submission device (record {
          buffer_id = buffer_id;
          command = record { id = id; offset = 0; length = 4; priority = 1 };
        }))
        rest
