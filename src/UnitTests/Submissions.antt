-- ===== src/UnitTests/Submissions.antt =====
-- src/submission.rs: its unit tests, with their double of a device.
use rust_gpu_driver_lab.Base.{ℕ, ◌≡◌, refl, [], ◌∷◌, ok, err, returns}
use rust_gpu_driver_lab.Command
use rust_gpu_driver_lab.Command.{RawCommand, range_end}
use rust_gpu_driver_lab.Device
use rust_gpu_driver_lab.Device.{GpuDevice, default}
use rust_gpu_driver_lab.Device.Buffer
use rust_gpu_driver_lab.Device.Buffer.{BufferId, unknown_buffer}
use rust_gpu_driver_lab.Submission.{
  BufferInfo, SubmissionRequest, SubmissionError, range_exceeds_initialized, validate_submission,
  device_info,
}
use rust_gpu_driver_lab.UnitTests.{Unwrap, UnwrapCall, IsOk}

record FixedBufferInfo : Type 0 where
  pub initialized : ℕ

instance abbrev fixed_info : BufferInfo FixedBufferInfo
fixed_info = record { initialized_len = λ buffers _. ok buffers.initialized }

abbrev valid_command : RawCommand
valid_command = record { id = 1; offset = 4; length = 4; priority = 1 }

abbrev request : BufferId → SubmissionRequest
request buffer_id = record { buffer_id = buffer_id; command = valid_command }

ValidSubmissionIsAccepted : Type 0
ValidSubmissionIsAccepted = UnwrapCall (Device.allocate_buffer default 16) λ device buffer_id.
    UnwrapCall (Device.write_buffer device buffer_id (1 ∷ 2 ∷ 3 ∷ 4 ∷ 5 ∷ 6 ∷ 7 ∷ 8 ∷ []))
      λ device _. Unwrap (validate_submission device (request buffer_id)) λ submission.
        (submission.buffer_id ≡ buffer_id) × (range_end submission.command.range ≡ returns 8)

CommandEndingAtInitializedBoundaryIsValid : Type 0
CommandEndingAtInitializedBoundaryIsValid =
    UnwrapCall (Device.allocate_buffer default 16) λ device buffer_id.
      UnwrapCall (Device.write_buffer device buffer_id (0 ∷ 0 ∷ 0 ∷ 0 ∷ 0 ∷ 0 ∷ 0 ∷ 0 ∷ []))
        λ device _. IsOk (validate_submission device (request buffer_id))

CommandBeyondInitializedDataIsRejected : Type 0
CommandBeyondInitializedDataIsRejected =
    UnwrapCall (Device.allocate_buffer default 16) λ device buffer_id.
      UnwrapCall (Device.write_buffer device buffer_id (1 ∷ 2 ∷ 3 ∷ 4 ∷ 5 ∷ 6 ∷ [])) λ device _.
        validate_submission device (request buffer_id) ≡ err (range_exceeds_initialized 8 6)

UnknownBufferIsRejected : Type 0
UnknownBufferIsRejected = UnwrapCall (Device.allocate_buffer default 8) λ device buffer_id.
    UnwrapCall (Device.release_buffer device buffer_id) λ device _.
      validate_submission device (request buffer_id)
      ≡ err (SubmissionError.buffer (unknown_buffer buffer_id))

StructurallyInvalidCommandIsRejectedFirst : Type 0
StructurallyInvalidCommandIsRejectedFirst =
    UnwrapCall (Device.allocate_buffer default 8) λ device buffer_id.
      UnwrapCall (Device.release_buffer device buffer_id) λ device _.
        let invalid : RawCommand = record { id = 0; offset = 4; length = 4; priority = 1 } in
        validate_submission device (record { buffer_id = buffer_id; command = invalid })
        ≡ err (SubmissionError.command Command.zero_command_id)

ValidationWorksWithTestDouble : Type 0
ValidationWorksWithTestDouble = UnwrapCall (Device.allocate_buffer default 1) λ device buffer_id.
    let buffers : FixedBufferInfo = record { initialized = 32 } in
    let command : RawCommand = record { id = 8; offset = 16; length = 8; priority = 3 } in
    IsOk (validate_submission buffers (record { buffer_id = buffer_id; command = command }))

-- Every test passes.
tests_pass :
    ValidSubmissionIsAccepted × CommandEndingAtInitializedBoundaryIsValid
    × CommandBeyondInitializedDataIsRejected × UnknownBufferIsRejected
    × StructurallyInvalidCommandIsRejectedFirst × ValidationWorksWithTestDouble
unfolding ValidSubmissionIsAccepted CommandEndingAtInitializedBoundaryIsValid
    CommandBeyondInitializedDataIsRejected UnknownBufferIsRejected
    StructurallyInvalidCommandIsRejectedFirst ValidationWorksWithTestDouble Device.allocate_buffer
    Device.write_buffer Device.release_buffer Device.initialized_len Buffer.write
    validate_submission Command.try_from range_end
tests_pass = ((refl, refl), tt, refl, refl, refl, tt)
