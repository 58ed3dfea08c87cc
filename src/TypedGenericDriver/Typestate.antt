-- ===== src/TypedGenericDriver/Typestate.antt =====
-- src/typed_generic_driver.rs, src/submission_session.rs: the drivers that the public methods can
-- produce, and what their markers guarantee.
use rust_gpu_driver_lab.Base.{
  ℕ, List, ◌≡◌, refl, sym, subst, ◌∙◌, ap, arith, Option, returns, Outcome, ok, err, panic, map_err,
}
use rust_gpu_driver_lab.Command.{RawCommand}
use rust_gpu_driver_lab.DeviceState as Controller
use rust_gpu_driver_lab.DeviceState.{DeviceState, DeviceController, StateError}
use rust_gpu_driver_lab.Device.Buffer.{BufferId}
use rust_gpu_driver_lab.Submission.{ValidatedSubmission, SubmissionError}
use rust_gpu_driver_lab.QueueBackend.{SubmissionQueue}
use rust_gpu_driver_lab.GenericDriver
use rust_gpu_driver_lab.GenericDriver.{GenericGpuDriver, GenericDriverError}
use rust_gpu_driver_lab.TypedDriver.{DriverState, Operational}
use rust_gpu_driver_lab.TypedDriver.Typestate.{Matches, After, load_firmware-After, start_succeeds}
use rust_gpu_driver_lab.TypedGenericDriver
use rust_gpu_driver_lab.TypedGenericDriver.{
  TypedGenericGpuDriver, GenericTransitionError, runtime_state, transition,
}
use rust_gpu_driver_lab.SubmissionSession

module _ (backend : SubmissionQueue) where
  -- The drivers that clients can hold: made by `new` and by any calls of the public methods.
  pub data Reachable : (s : DriverState) → TypedGenericGpuDriver s backend → Type 0 where
    created : (q : backend.Queue) → Reachable DriverState.offline (TypedGenericDriver.new backend q)
    loaded :
        {d : TypedGenericGpuDriver DriverState.offline backend}
        {e : TypedGenericGpuDriver DriverState.firmware_loaded backend} (image : List ℕ)
        → Reachable DriverState.offline d
        → TypedGenericDriver.load_firmware backend d image ≡ ok e
        → Reachable DriverState.firmware_loaded e
    load_refused :
        {d : TypedGenericGpuDriver DriverState.offline backend}
        {e : GenericTransitionError DriverState.offline backend} (image : List ℕ)
        → Reachable DriverState.offline d
        → TypedGenericDriver.load_firmware backend d image ≡ err e
        → Reachable DriverState.offline e.driver
    started :
        {d : TypedGenericGpuDriver DriverState.firmware_loaded backend}
        {e : TypedGenericGpuDriver DriverState.ready backend}
        → Reachable DriverState.firmware_loaded d
        → TypedGenericDriver.start backend d ≡ ok e
        → Reachable DriverState.ready e
    start_refused :
        {d : TypedGenericGpuDriver DriverState.firmware_loaded backend}
        {e : GenericTransitionError DriverState.firmware_loaded backend}
        → Reachable DriverState.firmware_loaded d
        → TypedGenericDriver.start backend d ≡ err e
        → Reachable DriverState.firmware_loaded e.driver
    allocated :
        {s : DriverState} {d : TypedGenericGpuDriver s backend} (op : Operational s) (capacity : ℕ)
        → Reachable s d
        → Reachable s (TypedGenericDriver.allocate_buffer backend op d capacity).0
    written :
        {s : DriverState} {d : TypedGenericGpuDriver s backend} (op : Operational s) (id : BufferId)
        (bytes : List ℕ)
        → Reachable s d
        → Reachable s (TypedGenericDriver.write_buffer backend op d id bytes).0
    submitted :
        {s : DriverState} {d : TypedGenericGpuDriver s backend} (op : Operational s) (id : BufferId)
        (command : RawCommand)
        → Reachable s d
        → Reachable s (TypedGenericDriver.submit backend op d id command).0
    submitted_in_session :
        {s : DriverState} {d : TypedGenericGpuDriver s backend} (op : Operational s) (id : BufferId)
        (command : RawCommand)
        → Reachable s d
        → Reachable s (
            SubmissionSession.finish backend op
              (SubmissionSession.submit backend op
                (SubmissionSession.begin_submission_session backend op d)
                id
                command).0)
    taken :
        {s : DriverState} {d e : TypedGenericGpuDriver s backend} (op : Operational s)
        (next : Option ValidatedSubmission)
        → Reachable s d
        → TypedGenericDriver.next_submission backend op d ≡ returns (e, next)
        → Reachable s e

  -- A typed driver after a transition.
  abbrev pub TypedAfter :
      {s : DriverState} (t : DriverState)
      → DeviceState
      → Outcome (GenericTransitionError s backend) (TypedGenericGpuDriver t backend)
      → Type 0
  TypedAfter t old (ok d) = Matches t (runtime_state d)
  TypedAfter t old (err e) = runtime_state e.driver ≡ old
  TypedAfter t old panic = ⊥

  transition-TypedAfter :
      (s t : DriverState) (old : DeviceState) (d : GenericGpuDriver backend) (c : DeviceController)
      (result : Outcome StateError (Unit {0}))
      → After t old (c, result)
      → TypedAfter {s = s} t old (
          transition backend t
            (record d { controller = c }, map_err GenericDriverError.state result))
  transition-TypedAfter s t old d c (ok u) h = h
  transition-TypedAfter s t old d c (err e) h = h
  transition-TypedAfter s t old d c panic h = h

  load-TypedAfter :
      (d : TypedGenericGpuDriver DriverState.offline backend) (image : List ℕ)
      → Matches DriverState.offline (runtime_state d)
      → TypedAfter DriverState.firmware_loaded
          (runtime_state d)
          (TypedGenericDriver.load_firmware backend d image)
  unfolding TypedGenericDriver.load_firmware GenericDriver.load_firmware
  load-TypedAfter d image h =
      let (c, result) = Controller.load_firmware d.inner.controller image in
      transition-TypedAfter DriverState.offline DriverState.firmware_loaded (runtime_state d)
        d.inner c result (load_firmware-After (runtime_state d) image h)

  -- Starting a driver whose state matches its marker succeeds.
  start-Matches :
      (d : TypedGenericGpuDriver DriverState.firmware_loaded backend)
      → Matches DriverState.firmware_loaded (runtime_state d)
      → (e : TypedGenericGpuDriver DriverState.ready backend) × (TypedGenericDriver.start backend d
          ≡ ok e)
        × Matches DriverState.ready (runtime_state e)
  unfolding TypedGenericDriver.start GenericDriver.start
  start-Matches d h =
      let (c, starts, matches) = start_succeeds (runtime_state d) h in
      (record { inner = record d.inner { controller = c } }, rw starts refl, matches)

  -- What the operational methods leave in the controller.
  gate-state :
      {A : Type 0} (ready : Outcome StateError Controller.FirmwareInfo)
      (d : GenericGpuDriver backend) (rest : GenericDriver.Answer backend A)
      → rest.0.controller ≡ d.controller
      → (GenericDriver.gate backend ready d rest).0.controller ≡ d.controller
  gate-state (ok info) d rest h = h
  gate-state (err e) d rest h = refl
  gate-state panic d rest h = refl

  enqueue_validated-state :
      (d : GenericGpuDriver backend) (validated : Outcome SubmissionError ValidatedSubmission)
      → (GenericDriver.enqueue_validated backend d validated).0.controller ≡ d.controller
  enqueue_validated-state d (ok s) = refl
  enqueue_validated-state d (err e) = refl
  enqueue_validated-state d panic = refl

  submit-state :
      (d : GenericGpuDriver backend) (id : BufferId) (command : RawCommand)
      → (GenericDriver.submit backend d id command).0.controller ≡ d.controller
  unfolding GenericDriver.submit
  submit-state d id command = gate-state _ d _ (enqueue_validated-state d _)

  taken-state :
      {s : DriverState} (op : Operational s) (d e : TypedGenericGpuDriver s backend)
      (next : Option ValidatedSubmission)
      → TypedGenericDriver.next_submission backend op d ≡ returns (e, next)
      → runtime_state e ≡ runtime_state d
  unfolding TypedGenericDriver.next_submission GenericDriver.next_submission
  taken-state op d e next h = ground arith

  -- Every typed driver that clients can hold is, at run time, in the state that its marker names.
  pub Reachable-Matches :
      {s : DriverState} {d : TypedGenericGpuDriver s backend}
      → Reachable s d
      → Matches s (runtime_state d)
  unfolding TypedGenericDriver.new GenericDriver.new TypedGenericDriver.allocate_buffer
      TypedGenericDriver.write_buffer TypedGenericDriver.submit GenericDriver.allocate_buffer
      GenericDriver.write_buffer SubmissionSession.submit
  Reachable-Matches (created q) = tt
  Reachable-Matches (loaded {d} {e} image r h) =
      let after = load-TypedAfter d image (Reachable-Matches r) in
      subst (TypedAfter DriverState.firmware_loaded (runtime_state d)) h after
  Reachable-Matches (load_refused {d} {e} image r h) =
      let after = load-TypedAfter d image (Reachable-Matches r) in
      let same = subst (TypedAfter DriverState.firmware_loaded (runtime_state d)) h after in
      subst (Matches DriverState.offline) (sym same) (Reachable-Matches r)
  Reachable-Matches (started {d} {e} r h) =
      let (f, starts, matches) = start-Matches d (Reachable-Matches r) in
      subst (TypedAfter DriverState.ready (runtime_state d)) (sym starts ∙ h) matches
  Reachable-Matches (start_refused {d} {e} r h) =
      let (f, starts, matches) = start-Matches d (Reachable-Matches r) in
      absurd (ground (arith, starts, h))
  Reachable-Matches (allocated {s} {d} op capacity r) =
      subst (Matches s) (sym (ap (λ c. c.state) (gate-state _ d.inner _ refl)))
        (Reachable-Matches r)
  Reachable-Matches (written {s} {d} op id bytes r) =
      subst (Matches s) (sym (ap (λ c. c.state) (gate-state _ d.inner _ refl)))
        (Reachable-Matches r)
  Reachable-Matches (submitted {s} {d} op id command r) =
      subst (Matches s) (sym (ap (λ c. c.state) (submit-state d.inner id command)))
        (Reachable-Matches r)
  Reachable-Matches (submitted_in_session {s} {d} op id command r) =
      subst (Matches s) (sym (ap (λ c. c.state) (submit-state d.inner id command)))
        (Reachable-Matches r)
  Reachable-Matches (taken {s} {d} {e} op next r h) =
      subst (Matches s) (sym (taken-state op d e next h)) (Reachable-Matches r)

  -- Starting a driver that clients can hold under the marker for loaded firmware always succeeds.
  pub start_always_succeeds :
      {d : TypedGenericGpuDriver DriverState.firmware_loaded backend}
      → Reachable DriverState.firmware_loaded d
      → (e : TypedGenericGpuDriver DriverState.ready backend) × (TypedGenericDriver.start backend d
          ≡ ok e)
        × Reachable DriverState.ready e
  start_always_succeeds {d} r =
      let (e, starts, matches) = start-Matches d (Reachable-Matches r) in
      (e, starts, started r starts)
