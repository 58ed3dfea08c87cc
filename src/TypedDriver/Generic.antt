-- ===== src/TypedDriver/Generic.antt =====
-- src/typed_driver.rs: the drivers that the public methods can produce are typed generic drivers over
-- the heap queue, so their markers guarantee the same.
use rust_gpu_driver_lab.Base.{
  ℕ, Outcome-cases, inl, inr, List, ◌≡◌, refl, sym, subst, ap, ◌∙◌, arith, Outcome, ok, err, panic,
}
use rust_gpu_driver_lab.Command.{RawCommand}
use rust_gpu_driver_lab.Device.Buffer.{BufferId}
use rust_gpu_driver_lab.QueueBackend.Instances.{heap_backend}
use rust_gpu_driver_lab.Driver
use rust_gpu_driver_lab.Driver.{DriverApiError}
use rust_gpu_driver_lab.Driver.Generic.{
  to_generic, rename, generically, load_firmware_agrees, start_agrees, allocate_buffer_agrees,
  write_buffer_agrees, submit_agrees, next_submission_agrees,
}
use rust_gpu_driver_lab.Driver.Traces.{new_driver}
use rust_gpu_driver_lab.TypedDriver
use rust_gpu_driver_lab.TypedDriver.{
  TypedDriver, DriverState, Operational, TransitionError, transition, runtime_state,
}
use rust_gpu_driver_lab.TypedDriver.Typestate.{Matches}
use rust_gpu_driver_lab.TypedGenericDriver
use rust_gpu_driver_lab.TypedGenericDriver.{TypedGenericGpuDriver, GenericTransitionError}
use rust_gpu_driver_lab.TypedGenericDriver.Typestate as Generically
use rust_gpu_driver_lab.TypedGenericDriver.Typestate.{Reachable-Matches, start_always_succeeds}

-- The drivers that clients can hold: made by `new` and by any calls of the public methods.
pub data Reachable : (s : DriverState) → TypedDriver s → Type 0 where
  created :
      {d : TypedDriver DriverState.offline} (queue_capacity : ℕ)
      → TypedDriver.new queue_capacity ≡ ok d
      → Reachable DriverState.offline d
  loaded :
      {d : TypedDriver DriverState.offline} {e : TypedDriver DriverState.firmware_loaded}
      (image : List ℕ)
      → Reachable DriverState.offline d
      → TypedDriver.load_firmware d image ≡ ok e
      → Reachable DriverState.firmware_loaded e
  load_refused :
      {d : TypedDriver DriverState.offline} {e : TransitionError DriverState.offline}
      (image : List ℕ)
      → Reachable DriverState.offline d
      → TypedDriver.load_firmware d image ≡ err e
      → Reachable DriverState.offline e.driver
  started :
      {d : TypedDriver DriverState.firmware_loaded} {e : TypedDriver DriverState.ready}
      → Reachable DriverState.firmware_loaded d
      → TypedDriver.start d ≡ ok e
      → Reachable DriverState.ready e
  start_refused :
      {d : TypedDriver DriverState.firmware_loaded}
      {e : TransitionError DriverState.firmware_loaded}
      → Reachable DriverState.firmware_loaded d
      → TypedDriver.start d ≡ err e
      → Reachable DriverState.firmware_loaded e.driver
  allocated :
      {s : DriverState} {d : TypedDriver s} (op : Operational s) (capacity : ℕ)
      → Reachable s d
      → Reachable s (TypedDriver.allocate_buffer op d capacity).0
  written :
      {s : DriverState} {d : TypedDriver s} (op : Operational s) (id : BufferId) (bytes : List ℕ)
      → Reachable s d
      → Reachable s (TypedDriver.write_buffer op d id bytes).0
  submitted :
      {s : DriverState} {d : TypedDriver s} (op : Operational s) (id : BufferId)
      (command : RawCommand)
      → Reachable s d
      → Reachable s (TypedDriver.submit op d id command).0
  taken :
      {s : DriverState} {d : TypedDriver s} (op : Operational s)
      → Reachable s d
      → Reachable s (TypedDriver.next_submission op d).0

abbrev pub to_typed : {s : DriverState} → TypedDriver s → TypedGenericGpuDriver s heap_backend
to_typed d = record { inner = to_generic d.inner }

-- The result of a transition, over the generic driver.
abbrev pub lifted :
    {s t : DriverState}
    → Outcome (TransitionError s) (TypedDriver t)
    → Outcome (GenericTransitionError s heap_backend) (TypedGenericGpuDriver t heap_backend)
lifted (ok d) = ok (to_typed d)
lifted (err e) = err (record { driver = to_typed e.driver; error = rename e.error })
lifted panic = panic

transition-lifted :
    (s t : DriverState) (r : Driver.Answer (Unit {0}))
    → ◌≡◌
        {A = Outcome (GenericTransitionError s heap_backend) (TypedGenericGpuDriver t heap_backend)}
        (TypedGenericDriver.transition heap_backend t (generically r))
        (lifted {s = s} (transition t r))
transition-lifted s t (d, ok u) = refl
transition-lifted s t (d, err e) = refl
transition-lifted s t (d, panic) = refl

load_firmware-lifted :
    (d : TypedDriver DriverState.offline) (image : List ℕ)
    → TypedGenericDriver.load_firmware heap_backend (to_typed d) image
      ≡ lifted (TypedDriver.load_firmware d image)
unfolding TypedGenericDriver.load_firmware TypedDriver.load_firmware
load_firmware-lifted d image =
    ap (TypedGenericDriver.transition heap_backend DriverState.firmware_loaded)
      (load_firmware_agrees d.inner image)
    ∙ transition-lifted DriverState.offline DriverState.firmware_loaded
        (Driver.load_firmware d.inner image)

start-lifted :
    (d : TypedDriver DriverState.firmware_loaded)
    → TypedGenericDriver.start heap_backend (to_typed d) ≡ lifted (TypedDriver.start d)
unfolding TypedGenericDriver.start TypedDriver.start
start-lifted d =
    ap (TypedGenericDriver.transition heap_backend DriverState.ready) (start_agrees d.inner)
    ∙ transition-lifted DriverState.firmware_loaded DriverState.ready (Driver.start d.inner)

new_inner :
    (capacity : ℕ) {d : TypedDriver DriverState.offline}
    → TypedDriver.new capacity ≡ ok d
    → Driver.new capacity ≡ ok d.inner
unfolding TypedDriver.new
new_inner capacity h = ground arith

created_generic :
    (capacity : ℕ) (d : TypedDriver DriverState.offline)
    → Driver.new capacity ≡ ok d.inner
    → Generically.Reachable heap_backend DriverState.offline (to_typed d)
unfolding TypedGenericDriver.new
created_generic capacity d h =
    let (q, made, same) = new_driver capacity h in
    subst (λ g. Generically.Reachable heap_backend DriverState.offline (record { inner = g })) same
      (Generically.created q)

-- Every typed driver that clients can hold is one over the generic driver.
Reachable-to_typed :
    {s : DriverState} {d : TypedDriver s}
    → Reachable s d
    → Generically.Reachable heap_backend s (to_typed d)
unfolding TypedDriver.new TypedGenericDriver.new TypedDriver.allocate_buffer
    TypedGenericDriver.allocate_buffer TypedDriver.write_buffer TypedGenericDriver.write_buffer
    TypedDriver.submit TypedGenericDriver.submit TypedDriver.next_submission
    TypedGenericDriver.next_submission
Reachable-to_typed (created {d} capacity h) = created_generic capacity d (new_inner capacity h)
Reachable-to_typed (loaded {d} image r h) =
    Generically.loaded image (Reachable-to_typed r) (load_firmware-lifted d image ∙ ap lifted h)
Reachable-to_typed (load_refused {d} image r h) =
    Generically.load_refused image (Reachable-to_typed r)
      (load_firmware-lifted d image ∙ ap lifted h)
Reachable-to_typed (started {d} r h) =
    Generically.started (Reachable-to_typed r) (start-lifted d ∙ ap lifted h)
Reachable-to_typed (start_refused {d} r h) =
    Generically.start_refused (Reachable-to_typed r) (start-lifted d ∙ ap lifted h)
Reachable-to_typed (allocated {s} {d} op capacity r) =
    rw (allocate_buffer_agrees d.inner capacity) at
      (Generically.allocated op capacity (Reachable-to_typed r))
Reachable-to_typed (written {s} {d} op id bytes r) =
    rw (write_buffer_agrees d.inner id bytes) at
      (Generically.written op id bytes (Reachable-to_typed r))
Reachable-to_typed (submitted {s} {d} op id command r) =
    rw (submit_agrees d.inner id command) at
      (Generically.submitted op id command (Reachable-to_typed r))
Reachable-to_typed (taken {s} {d} op r) =
    Generically.taken op (Driver.next_submission d.inner).1 (Reachable-to_typed r)
      (rw (next_submission_agrees d.inner) refl)

-- Every `TypedDriver` that clients can hold is, at run time, in the state that its marker names.
pub typed_Reachable-Matches :
    {s : DriverState} {d : TypedDriver s} → Reachable s d → Matches s (runtime_state d)
typed_Reachable-Matches r = Reachable-Matches heap_backend (Reachable-to_typed r)

-- Starting a `TypedDriver` that clients can hold under the marker for loaded firmware succeeds.
pub typed_start_succeeds :
    {d : TypedDriver DriverState.firmware_loaded}
    → Reachable DriverState.firmware_loaded d
    → (e : TypedDriver DriverState.ready) × (TypedDriver.start d ≡ ok e)
      × Reachable DriverState.ready e
typed_start_succeeds {d} r =
    let (g, starts, reached) = start_always_succeeds heap_backend (Reachable-to_typed r) in
    let same = sym (start-lifted d) ∙ starts in
    elim (Outcome-cases (TypedDriver.start d)) [
      | inl (e, h) ↦ (e, h, started r h)
      | inr (inl (x, h)) ↦ absurd (ground (arith, same, h))
      | inr (inr h) ↦ absurd (ground (arith, same, h))
    ]
