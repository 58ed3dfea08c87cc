-- ===== src/Submission.antt =====
-- src/submission.rs: a raw command against the buffer that it names.
pub mod Laws
pub mod Expiry
use rust_gpu_driver_lab.Base.{ℕ, ltb, Outcome, ok, err, ◌>>=◌, ◌>>◌, call, map_err, reject_if}
use rust_gpu_driver_lab.Command.{RawCommand, ValidatedCommand, CommandError, try_from, range_end}
use rust_gpu_driver_lab.Device
use rust_gpu_driver_lab.Device.{GpuDevice}
use rust_gpu_driver_lab.Device.Buffer.{BufferId, DriverError}

-- The trait `BufferInfo`, which other crates may implement.
pub record BufferInfo (B : Type 0) : Type 0 where
  pub initialized_len : B → BufferId → Outcome DriverError ℕ

-- `impl BufferInfo for GpuDevice`.
instance abbrev pub device_info : BufferInfo GpuDevice
device_info = record { initialized_len = Device.initialized_len }

pub record SubmissionRequest : Type 0 where
  pub buffer_id : BufferId
  pub command : RawCommand

pub record ValidatedSubmission : Type 0 where
  pub buffer_id : BufferId
  pub command : ValidatedCommand

pub data SubmissionError : Type 0 where
  command : CommandError → SubmissionError
  buffer : DriverError → SubmissionError
  range_exceeds_initialized : (end initialized : ℕ) → SubmissionError

unfoldable pub validate_submission :
    {B : Type 0} ⦃info : BufferInfo B⦄
    → B
    → SubmissionRequest
    → Outcome SubmissionError ValidatedSubmission
validate_submission ⦃info⦄ buffers request = do
  cmd ← map_err SubmissionError.command (try_from request.command)
  initialized ← map_err SubmissionError.buffer (info.initialized_len buffers request.buffer_id)
  end ← call (range_end cmd.range)
  reject_if (ltb initialized end) (range_exceeds_initialized end initialized)
  ok (record { buffer_id = request.buffer_id; command = cmd })
