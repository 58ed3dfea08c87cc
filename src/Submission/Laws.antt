-- ===== src/Submission/Laws.antt =====
-- src/submission.rs: what validation accepts, in which order it refuses, and that it never panics.
use rust_gpu_driver_lab.Base.{
  ℕ, ◌+◌, ◌≤◌, ◌<◌, ◌≡◌, ◌≢◌, ◌↔◌, List, arith, length, Outcome, ok, err, panic, Outcome-cases, inl,
  inr, take, drop, length-take, length-drop, dec_le, le→not_ltb, lt→ltb, refl, subst, ltb, some,
  if◌then◌else◌,
}
use rust_gpu_driver_lab.Command.{CommandError, try_from, range_end}
use rust_gpu_driver_lab.Command.Laws.{
  IsAcceptable, validated, try_from_iff, try_from-ne-panic, FirstFault, try_from-err_iff,
}
use rust_gpu_driver_lab.Device
use rust_gpu_driver_lab.Device.{GpuDevice}
use rust_gpu_driver_lab.Device.Buffer.{BufferId, DriverError, GpuBuffer}
use rust_gpu_driver_lab.Device.Buffer.Views.{view, length-view}
use rust_gpu_driver_lab.Device.Invariant.{IsValid, found-IsSound}
use rust_gpu_driver_lab.Device.Contents.{read_buffer_range_found}
use rust_gpu_driver_lab.Base.HashMap
use rust_gpu_driver_lab.Submission.{
  BufferInfo, SubmissionRequest, ValidatedSubmission, SubmissionError, validate_submission,
  range_exceeds_initialized, device_info,
}

module _ {B : Type 0} ⦃info : BufferInfo B⦄ (buffers : B) (request : SubmissionRequest) where
  abbrev pub validated_submission : ValidatedSubmission
  validated_submission = record {
    buffer_id = request.buffer_id;
    command = validated request.command;
  }

  -- Once the command is acceptable and the buffer is resolved, the range decides.
  resolved :
      (n : ℕ)
      → IsAcceptable request.command
      → info.initialized_len buffers request.buffer_id ≡ ok n
      → validate_submission buffers request ≡ (
          if ltb n (request.command.offset + request.command.length)
          then err (range_exceeds_initialized (request.command.offset + request.command.length) n)
          else ok validated_submission)
  unfolding validate_submission range_end
  resolved n a e =
      let valid = (try_from_iff request.command (validated request.command)).1 (a, refl) in
      ground (arith, valid)

  unresolved :
      (e : DriverError)
      → IsAcceptable request.command
      → info.initialized_len buffers request.buffer_id ≡ err e
      → validate_submission buffers request ≡ err (SubmissionError.buffer e)
  unfolding validate_submission
  unresolved e a h =
      let valid = (try_from_iff request.command (validated request.command)).1 (a, refl) in
      ground (arith, valid)

  crashed :
      IsAcceptable request.command
      → info.initialized_len buffers request.buffer_id ≡ panic
      → validate_submission buffers request ≡ panic
  unfolding validate_submission
  crashed a h =
      let valid = (try_from_iff request.command (validated request.command)).1 (a, refl) in
      ground (arith, valid)

  refused :
      (e : CommandError)
      → try_from request.command ≡ err e
      → validate_submission buffers request ≡ err (SubmissionError.command e)
  unfolding validate_submission
  refused e h = rw h

  -- Which of the three checks a result comes from, in their order.
  abbrev pub Verdict : Outcome SubmissionError ValidatedSubmission → Type 0
  Verdict (ok s) =
      (n : ℕ) × IsAcceptable request.command
      × (info.initialized_len buffers request.buffer_id ≡ ok n)
      × (request.command.offset + request.command.length ≤ n)
      × (s ≡ validated_submission)
  Verdict (err (SubmissionError.command e)) = FirstFault request.command e
  Verdict (err (SubmissionError.buffer e)) =
      IsAcceptable request.command × (info.initialized_len buffers request.buffer_id ≡ err e)
  Verdict (err (range_exceeds_initialized end n)) =
      IsAcceptable request.command
      × (info.initialized_len buffers request.buffer_id ≡ ok n)
      × (end ≡ request.command.offset + request.command.length)
      × (n < end)
  Verdict panic =
      IsAcceptable request.command × (info.initialized_len buffers request.buffer_id ≡ panic)

  resolved-Verdict :
      (n : ℕ)
      → IsAcceptable request.command
      → info.initialized_len buffers request.buffer_id ≡ ok n
      → Verdict (validate_submission buffers request)
  resolved-Verdict n a e = elim (dec_le (request.command.offset + request.command.length) n) [
    | yes fits ↦ rw (resolved n a e, le→not_ltb _ _ fits) (n, a, e, fits, refl)
    | no over ↦
        let beyond : n < request.command.offset + request.command.length = omega arith in
        rw (resolved n a e, lt→ltb _ _ beyond) (a, e, refl, beyond)
  ]

  -- Every result of validation is explained by the first check that decides it: the command, the
  -- buffer, the range.
  pub validate_submission-Verdict : Verdict (validate_submission buffers request)
  validate_submission-Verdict = elim (Outcome-cases (try_from request.command)) [
    | inl (c, valid) ↦
        let a = ((try_from_iff request.command c).0 valid).0 in
        elim (Outcome-cases (info.initialized_len buffers request.buffer_id)) [
          | inl (n, e) ↦ resolved-Verdict n a e
          | inr (inl (e, h)) ↦ rw (unresolved e a h) (a, h)
          | inr (inr h) ↦ rw (crashed a h) (a, h)
        ]
    | inr (inl (e, h)) ↦ rw (refused e h) ((try_from-err_iff request.command e).0 h)
    | inr (inr h) ↦ absurd (try_from-ne-panic request.command h)
  ]

-- The submissions that validation makes.
pub validate_submission-ok :
    {B : Type 0} ⦃info : BufferInfo B⦄ (buffers : B) (request : SubmissionRequest)
    {s : ValidatedSubmission}
    → validate_submission buffers request ≡ ok s
    → Verdict buffers request (ok s)
validate_submission-ok buffers request h =
    subst (Verdict buffers request) h (validate_submission-Verdict buffers request)

-- A request is accepted exactly if its command is acceptable, its buffer resolves and its range ends
-- inside the initialized bytes; the submission then carries the request's own values.
pub validate_submission_iff :
    {B : Type 0} ⦃info : BufferInfo B⦄ (buffers : B) (request : SubmissionRequest)
    (s : ValidatedSubmission)
    → (validate_submission buffers request ≡ ok s) ↔ (
        (n : ℕ) × IsAcceptable request.command
        × (info.initialized_len buffers request.buffer_id ≡ ok n)
        × (request.command.offset + request.command.length ≤ n)
        × (s ≡ validated_submission buffers request))
validate_submission_iff buffers request s = (
  λ h. validate_submission-ok buffers request h,
  λ (n, a, e, fits, made). rw (made, resolved buffers request n a e, le→not_ltb _ _ fits) refl,
)

initialized_len_found :
    (d : GpuDevice) (id : BufferId) (n : ℕ)
    → Device.initialized_len d id ≡ ok n
    → (b : GpuBuffer) × (HashMap.get id d.buffers ≡ some b) × (n ≡ b.used)
unfolding Device.initialized_len
initialized_len_found d id n h = ground arith

-- On a valid device the bytes of a validated submission can be read: as many as the command says.
pub validated_range_readable :
    (d : GpuDevice) (request : SubmissionRequest) {s : ValidatedSubmission}
    → IsValid d
    → validate_submission d request ≡ ok s
    → (bytes : List ℕ) × (Device.read_buffer_range d s.buffer_id s.command.range.offset
          s.command.range.length
        ≡ ok bytes)
      × (length bytes ≡ s.command.range.length)
      × (s.command.range.length ≢ 0)
validated_range_readable d request {s} v h =
    let (n, a, e, fits, made) = validate_submission-ok d request h in
    let (b, there, used) = initialized_len_found d request.buffer_id n e in
    let sound = found-IsSound request.buffer_id v there in
    let len = length-view b sound in
    let offset = request.command.offset in
    let count = request.command.length in
    (
      take count (drop offset (view b)),
      rw made
          (ground (arith, read_buffer_range_found d request.buffer_id there offset count sound)),
      ground (arith, length-take count (drop offset (view b)), length-drop offset (view b)),
      ground arith,
    )

-- Validation against a device never panics.
pub validate_submission-ne-panic :
    (d : GpuDevice) (request : SubmissionRequest) → validate_submission d request ≢ panic
unfolding Device.initialized_len
validate_submission-ne-panic d request h =
    let no_length = (subst (Verdict d request) h (validate_submission-Verdict d request)).1 in
    ground arith
