-- ===== src/Submission/Expiry.antt =====
-- src/submission.rs, src/lib.rs: what a later write does to the bytes of an accepted submission.
use rust_gpu_driver_lab.Base.{ℕ, ◌+◌, ◌≡◌, ◌≢◌, ◌<◌, List, arith, length, ok, subst, ==_refl}
use rust_gpu_driver_lab.Device
use rust_gpu_driver_lab.Device.{GpuDevice}
use rust_gpu_driver_lab.Device.Invariant.{IsValid}
use rust_gpu_driver_lab.Device.Calls.{write_buffer-IsValid}
use rust_gpu_driver_lab.Device.RoundTrip.{read_buffer-write_buffer}
use rust_gpu_driver_lab.Device.Reading.{read_buffer_range_iff}
use rust_gpu_driver_lab.Submission.{
  SubmissionRequest, ValidatedSubmission, validate_submission, device_info,
}

-- The range of a submission that validation accepted on a valid device can no longer be read after a
-- successful `write_buffer` of fewer bytes than the end of the range.
pub read_buffer_range-shorter_write :
    {d e : GpuDevice} (request : SubmissionRequest) {s : ValidatedSubmission} (bytes xs : List ℕ)
    → IsValid d
    → validate_submission d request ≡ ok s
    → Device.write_buffer d s.buffer_id bytes ≡ (e, ok tt)
    → length bytes < s.command.range.offset + s.command.range.length
    → Device.read_buffer_range e s.buffer_id s.command.range.offset s.command.range.length ≢ ok xs
read_buffer_range-shorter_write {d} {e} request {s} bytes xs v accepted written shorter readable =
    let after : IsValid e =
      subst (λ r. IsValid r.0) written (write_buffer-IsValid d v s.buffer_id bytes) in
    let (old, reads, fits, same) =
      (read_buffer_range_iff e s.buffer_id s.command.range.offset s.command.range.length xs after).0
        readable in
    let now = read_buffer-write_buffer s.buffer_id s.buffer_id bytes v written in
    ground (arith, now, reads, fits, shorter, ==_refl s.buffer_id)
