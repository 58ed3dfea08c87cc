-- ===== src/TypedGenericDriver/Observation.antt =====
-- src/typed_generic_driver.rs, src/submission_session.rs: a ready driver and its sessions answer as
-- the ideal driver.
use rust_gpu_driver_lab.Base.{
  ℕ, ◌≡◌, refl, ap, sym, ◌∙◌, arith, List, [], ◌∷◌, ◌++◌, map, Run, returns, panicked, and_then,
  Run-cases, inl, inr, Outcome, ok, err, panic,
}
use rust_gpu_driver_lab.Fifo.{Refusal}
use rust_gpu_driver_lab.QueueBackend.{SubmissionQueue, Contract}
use rust_gpu_driver_lab.GenericDriver
use rust_gpu_driver_lab.GenericDriver.{GenericGpuDriver}
use rust_gpu_driver_lab.GenericDriver.Ideal
use rust_gpu_driver_lab.GenericDriver.Traces as Generically
use rust_gpu_driver_lab.GenericDriver.Traces.{
  Reply, finished, handed_out, counted, answered, map_reply,
}
use rust_gpu_driver_lab.GenericDriver.Observation.{driver_run-Ideal}
use rust_gpu_driver_lab.TypedDriver.{DriverState}
use rust_gpu_driver_lab.TypedGenericDriver
use rust_gpu_driver_lab.TypedGenericDriver.{TypedGenericGpuDriver, GenericTransitionError}
use rust_gpu_driver_lab.TypedGenericDriver.Traces
use rust_gpu_driver_lab.TypedGenericDriver.Traces.{
  Call, SessionCall, Ready, Session, allocate_buffer, write_buffer, next_submission,
  peek_submission, in_session, to_calls, all_calls, session_call, prepend_all,
}
use rust_gpu_driver_lab.SubmissionSession

module _ (backend : SubmissionQueue) where
  session-generic :
      (d : Session backend) (cs : List SessionCall) (rest : List Generically.Call)
      → Generically.run backend d.driver.inner (map session_call cs ++ rest)
        ≡ prepend_all backend
            (Traces.session_run backend d cs).1
            (Generically.run backend (Traces.session_run backend d cs).0.driver.inner rest)
  unfolding Generically.run Generically.step Traces.session_run Traces.session_step
      SubmissionSession.submit SubmissionSession.queued_len SubmissionSession.is_queue_empty
      SubmissionSession.is_queue_full TypedGenericDriver.submit TypedGenericDriver.queued_len
      TypedGenericDriver.is_queue_empty TypedGenericDriver.is_queue_full
  session-generic d [] rest = refl
  session-generic d (SessionCall.submit id command ∷ cs) rest =
      let (e, r) = Traces.session_step backend d (SessionCall.submit id command) in
      ap (Generically.prepend backend r) (session-generic e cs rest)
  session-generic d (SessionCall.queued_len ∷ cs) rest =
      ap (Generically.prepend backend (counted (GenericDriver.queued_len backend d.driver.inner)))
        (session-generic d cs rest)
  session-generic d (SessionCall.is_queue_empty ∷ cs) rest =
      ap
        (Generically.prepend backend
          (answered (GenericDriver.is_queue_empty backend d.driver.inner)))
        (session-generic d cs rest)
  session-generic d (SessionCall.is_queue_full ∷ cs) rest =
      ap
        (Generically.prepend backend
          (answered (GenericDriver.is_queue_full backend d.driver.inner)))
        (session-generic d cs rest)

  step-generic :
      (d : Ready backend) (c : Call) (rest : List Generically.Call)
      → Generically.run backend d.inner (to_calls c ++ rest)
        ≡ and_then
            (Traces.step backend d c)
            λ (e, rs). prepend_all backend rs (Generically.run backend e.inner rest)
  unfolding Generically.run Generically.step Traces.step TypedGenericDriver.allocate_buffer
      TypedGenericDriver.write_buffer TypedGenericDriver.submit TypedGenericDriver.next_submission
      TypedGenericDriver.peek_submission TypedGenericDriver.queued_len
      TypedGenericDriver.is_queue_empty TypedGenericDriver.is_queue_full
  step-generic d (allocate_buffer capacity) rest = refl
  step-generic d (write_buffer id bytes) rest = refl
  step-generic d (Call.submit id command) rest = refl
  step-generic d next_submission rest =
      elim (Run-cases (GenericDriver.next_submission backend d.inner)) [
        | inl ((g, o), e) ↦ rw e refl
        | inr e ↦ rw e refl
      ]
  step-generic d peek_submission rest =
      elim (Run-cases (GenericDriver.peek_submission backend d.inner)) [
        | inl (o, e) ↦ rw e refl
        | inr e ↦ rw e refl
      ]
  step-generic d Call.queued_len rest = refl
  step-generic d Call.is_queue_empty rest = refl
  step-generic d Call.is_queue_full rest = refl
  step-generic d (in_session cs) rest = session-generic (record { driver = d }) cs rest

  run-generic :
      (d : Ready backend) (cs : List Call)
      → Generically.run backend d.inner (all_calls cs) ≡ Traces.run backend d cs
  unfolding Generically.run Traces.run
  run-generic d [] = refl
  run-generic d (c ∷ cs) = step-generic d c (all_calls cs) ∙ λ i.
      and_then (Traces.step backend d c) λ (e, rs). prepend_all backend rs (run-generic e cs i)

  transition-ok :
      {s : DriverState} (t : DriverState) (a : GenericDriver.Answer backend (Unit {0}))
      {e : TypedGenericGpuDriver t backend}
      → ◌≡◌ {A = Outcome (GenericTransitionError s backend) (TypedGenericGpuDriver t backend)}
          (TypedGenericDriver.transition backend t a)
          (ok e)
      → a ≡ (e.inner, ok tt)
  transition-ok t (inner, ok u) h = ground arith
  transition-ok t (inner, err x) h = absurd (ground arith)
  transition-ok t (inner, panic) h = absurd (ground arith)

  -- The generic driver under a driver that was loaded and started.
  started-generic :
      (q : backend.Queue) (image : List ℕ)
      {loaded : TypedGenericGpuDriver DriverState.firmware_loaded backend} {ready : Ready backend}
      (calls : List Generically.Call)
      → TypedGenericDriver.load_firmware backend (TypedGenericDriver.new backend q) image
        ≡ ok loaded
      → TypedGenericDriver.start backend loaded ≡ ok ready
      → Generically.run backend
          (GenericDriver.new backend q)
          (Generically.load_firmware image ∷ Generically.start ∷ calls)
        ≡ Generically.prepend backend (finished (ok tt)) (
            Generically.prepend backend
              (finished (ok tt))
              (Generically.run backend ready.inner calls))
  unfolding TypedGenericDriver.load_firmware TypedGenericDriver.start TypedGenericDriver.new
      Generically.run Generically.step
  started-generic q image {loaded} {ready} calls loads starts =
      let load = GenericDriver.load_firmware backend (GenericDriver.new backend q) image in
      rw
        (
          transition-ok {s = DriverState.offline} DriverState.firmware_loaded load loads,
          transition-ok {s = DriverState.firmware_loaded} DriverState.ready
              (GenericDriver.start backend loaded.inner) starts,
        )
        refl

-- A reply of success is one under any names of the errors.
map_reply-finished :
    {E F : Type 0} (f : E → F) (a : Reply E)
    → map_reply f a ≡ finished (ok tt)
    → a ≡ finished (ok tt)
map_reply-finished f (finished (ok u)) h = refl
map_reply-finished f (finished (err e)) h = absurd (ground arith)
map_reply-finished f (finished panic) h = absurd (ground arith)
map_reply-finished f (Generically.allocated r) h = absurd (ground arith)
map_reply-finished f (handed_out o) h = absurd (ground arith)
map_reply-finished f (counted n) h = absurd (ground arith)
map_reply-finished f (answered b) h = absurd (ground arith)
map_reply-finished f (Generically.in_state t) h = absurd (ground arith)

module _ {backend : SubmissionQueue} (contract : Contract backend) where
  -- Two replies of success come off a run that a mapped list gives.
  succeed :
      (rest : Run (List (Reply backend.Error))) (a b : Reply Refusal) (rs : List (Reply Refusal))
      → Generically.prepend backend
          (finished (ok tt))
          (Generically.prepend backend (finished (ok tt)) rest)
        ≡ returns (map (map_reply contract.refusal) (a ∷ b ∷ rs))
      → (a ∷ b ∷ rs ≡ finished (ok tt) ∷ finished (ok tt) ∷ rs)
        × (rest ≡ returns (map (map_reply contract.refusal) rs))
  succeed (returns xs) a b rs h =
      let first : map_reply contract.refusal a ≡ finished (ok tt) = ground arith in
      let second : map_reply contract.refusal b ≡ finished (ok tt) = ground arith in
      (
        rw
            (
              map_reply-finished contract.refusal a first,
              map_reply-finished contract.refusal b second,
            )
            refl,
        ground arith,
      )
  succeed panicked a b rs h = absurd (ground arith)

  -- A driver made over an empty queue that keeps its contract, loaded and started, answers every
  -- sequence of calls, made directly or in submission sessions, as the ideal driver does once it has
  -- accepted the same firmware and started.
  pub typed_run-Ideal :
      (c : ℕ) (q : backend.Queue) (image : List ℕ) (calls : List Call)
      {loaded : TypedGenericGpuDriver DriverState.firmware_loaded backend} {ready : Ready backend}
      → contract.Represents c q []
      → TypedGenericDriver.load_firmware backend (TypedGenericDriver.new backend q) image
        ≡ ok loaded
      → TypedGenericDriver.start backend loaded ≡ ok ready
      → (replies : List (Reply Refusal)) × (Ideal.run c Ideal.new
            (Generically.load_firmware image ∷ Generically.start ∷ all_calls calls)
          ≡ finished (ok tt) ∷ finished (ok tt) ∷ replies)
        × (Traces.run backend ready calls ≡ returns (map (map_reply contract.refusal) replies))
  unfolding Ideal.run
  typed_run-Ideal c q image calls {loaded} {ready} r loads starts =
      let observed =
        driver_run-Ideal contract c q
          (Generically.load_firmware image ∷ Generically.start ∷ all_calls calls) r in
      let first = Ideal.step c Ideal.new (Generically.load_firmware image) in
      let second = Ideal.step c first.0 Generically.start in
      let rest = Ideal.run c second.0 (all_calls calls) in
      let run = run-generic backend ready calls in
      let (succeeded, same) =
        succeed (Generically.run backend ready.inner (all_calls calls)) first.1 second.1 rest
          (sym (started-generic backend q image (all_calls calls) loads starts) ∙ observed) in
      (rest, succeeded, sym run ∙ same)
