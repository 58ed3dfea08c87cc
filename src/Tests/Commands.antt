-- ===== src/Tests/Commands.antt =====
-- src/command.rs, src/device_state.rs, src/submission.rs: images, commands and submissions.
use rust_gpu_driver_lab.Base.{
  arith, ℕ, ◌+◌, ◌≡◌, ◌≤◌, ◌↔◌, refl, ◌≢◌, length, List, [], ◌∷◌, ok, err,
}
use rust_gpu_driver_lab.Command.{RawCommand, try_from, range_end, misaligned_offset}
use rust_gpu_driver_lab.Command.Laws.{
  IsAcceptable, FirstFault, validated, try_from_iff, try_from-err_iff,
}
use rust_gpu_driver_lab.DeviceState as Controller
use rust_gpu_driver_lab.DeviceState.{
  FirmwareInfo, DeviceController, check_image, unsupported_firmware_major, firmware_too_short,
}
use rust_gpu_driver_lab.DeviceState.Firmware.{image_of, check_image_iff}
use rust_gpu_driver_lab.DeviceState.Lifecycle.{load_firmware, start, run, IsLegal, run-IsLegal}
use rust_gpu_driver_lab.Device
use rust_gpu_driver_lab.Device.{GpuDevice, default}
use rust_gpu_driver_lab.Device.Buffer
use rust_gpu_driver_lab.Device.Invariant.{default-IsValid}
use rust_gpu_driver_lab.Device.Calls as DeviceCalls
use rust_gpu_driver_lab.Device.Runs
use rust_gpu_driver_lab.Submission.{
  SubmissionRequest, ValidatedSubmission, validate_submission, device_info,
}
use rust_gpu_driver_lab.Submission.Expiry.{read_buffer_range-shorter_write}
use rust_gpu_driver_lab.Submission.Laws.{
  Verdict, validated_submission, validate_submission_iff, validate_submission-Verdict,
  validated_range_readable,
}

abbrev raw : RawCommand
raw = record { id = 7; offset = 4; length = 4; priority = 2 }

abbrev misaligned : RawCommand
misaligned = record { id = 7; offset = 3; length = 0; priority = 9 }

try_from_iff_example :
    (try_from raw ≡ ok (validated raw)) ↔ (IsAcceptable raw × (validated raw ≡ validated raw))
try_from_iff_example = try_from_iff raw (validated raw)

try_from-err_iff_example :
    (try_from misaligned ≡ err (misaligned_offset 3 4))
    ↔ FirstFault misaligned (misaligned_offset 3 4)
try_from-err_iff_example = try_from-err_iff misaligned (misaligned_offset 3 4)

abbrev image : List ℕ
image = image_of 1 5 (9 ∷ [])

check_image_iff_example :
    (check_image image ≡ ok tt)
    ↔ ((minor : ℕ) × (payload : List ℕ) × (image ≡ image_of 1 minor payload))
check_image_iff_example = check_image_iff image

run-IsLegal_example : IsLegal (run Controller.default (load_firmware image ∷ start ∷ [])).state
run-IsLegal_example = run-IsLegal Controller.default (load_firmware image ∷ start ∷ []) tt

-- A device with one buffer of 16 bytes, eight of them valid.
abbrev one_buffer : List DeviceCalls.Call
one_buffer =
    DeviceCalls.allocate_buffer 16
    ∷ DeviceCalls.write_buffer 0 (1 ∷ 2 ∷ 3 ∷ 4 ∷ 5 ∷ 6 ∷ 7 ∷ 8 ∷ [])
    ∷ []

abbrev device : GpuDevice
device = Runs.run default one_buffer

abbrev request : SubmissionRequest
request = record { buffer_id = 0; command = raw }

abbrev submission : ValidatedSubmission
submission = record { buffer_id = 0; command = validated raw }

validate_submission_iff_example : (validate_submission device request ≡ ok submission) ↔ (
    (n : ℕ) × IsAcceptable raw
    × (Device.initialized_len device 0 ≡ ok n)
    × (4 + 4 ≤ n)
    × (submission ≡ validated_submission device request))
validate_submission_iff_example = validate_submission_iff device request submission

validate_submission-Verdict_example : Verdict device request (validate_submission device request)
validate_submission-Verdict_example = validate_submission-Verdict device request

validated_range_readable_example :
    (bytes : List ℕ) × (Device.read_buffer_range device 0 4 4 ≡ ok bytes)
    × (length bytes ≡ 4)
    × (raw.length ≢ 0)
unfolding Runs.run DeviceCalls.apply Device.allocate_buffer Device.write_buffer Buffer.write
    validate_submission try_from range_end Device.initialized_len
validated_range_readable_example =
    validated_range_readable device request {s = submission}
      (Runs.device_run-IsValid one_buffer default-IsValid) refl

read_buffer_range-shorter_write_example :
    Device.read_buffer_range (Device.write_buffer device 0 (9 ∷ [])).0 0 4 4 ≢ ok (9 ∷ [])
unfolding Runs.run DeviceCalls.apply Device.allocate_buffer Device.write_buffer Buffer.write
    validate_submission try_from range_end Device.initialized_len
read_buffer_range-shorter_write_example =
    read_buffer_range-shorter_write {d = device} {e = (Device.write_buffer device 0 (9 ∷ [])).0}
      request {s = submission} (9 ∷ []) (9 ∷ [])
      (Runs.device_run-IsValid one_buffer default-IsValid) refl refl (omega arith)
