-- ===== src/DeviceState/Lifecycle.antt =====
-- src/device_state.rs: the transitions of the controller, over any sequence of calls.
use rust_gpu_driver_lab.Base.{
  ℕ, ◌≡◌, ◌≢◌, ◌↔◌, inl, inr, List, [], ◌∷◌, arith, Outcome, ok, err, panic, refl, ap, sym, ◌∙◌,
  Outcome-cases,
}
use rust_gpu_driver_lab.DeviceState as Controller
use rust_gpu_driver_lab.DeviceState.{
  FirmwareInfo, StateError, DeviceState, DeviceController, default, invalid_state,
}
use rust_gpu_driver_lab.DeviceState.Firmware.{image_of, check_image_iff, check_image-ne-panic}

-- A call that changes the controller.
pub data Call : Type 0 where
  load_firmware : List ℕ → Call
  start : Call
  reset : Call

unfoldable pub apply : DeviceController → Call → DeviceController × Outcome StateError (Unit {0})
apply c (load_firmware image) = Controller.load_firmware c image
apply c start = Controller.start c
apply c reset = (Controller.reset c, ok tt)

-- The transitions that the lifecycle allows.
pub data Transition : DeviceState → DeviceState → Type 0 where
  loads :
      (info : FirmwareInfo)
      → info.major ≡ 1
      → Transition DeviceState.offline (DeviceState.firmware_loaded info)
  starts :
      (info : FirmwareInfo) → Transition (DeviceState.firmware_loaded info) (DeviceState.ready info)
  resets : (s : DeviceState) → Transition s DeviceState.offline

-- How a call may end: by an allowed transition, or refused with nothing changed.
pub data Ends (c : DeviceController)
    : DeviceController × Outcome StateError (Unit {0}) → Type 0 where
  moved : (d : DeviceController) → Transition c.state d.state → Ends c (d, ok tt)
  refused : (e : StateError) → Ends c (c, err e)

-- An offline controller loads an accepted image.
pub load_firmware_accepted :
    (minor : ℕ) (payload : List ℕ)
    → Controller.load_firmware default (image_of 1 minor payload) ≡ (
      record { state = DeviceState.firmware_loaded (record { major = 1; minor = minor }) },
      ok tt,
    )
unfolding Controller.load_firmware Controller.check_image
load_firmware_accepted minor payload = ground arith

pub load_firmware_refused :
    (image : List ℕ) (e : StateError)
    → Controller.check_image image ≡ err e
    → Controller.load_firmware default image ≡ (default, err e)
unfolding Controller.load_firmware
load_firmware_refused image e h = rw h

load_offline-Ends : (image : List ℕ) → Ends default (Controller.load_firmware default image)
load_offline-Ends image = elim (Outcome-cases (Controller.check_image image)) [
  | inl (_, e) ↦
      let (minor, payload, is_image) = (check_image_iff image).0 e in
      rw (is_image, load_firmware_accepted minor payload) (moved _ (Transition.loads _ refl))
  | inr (inl (e, h)) ↦ rw (load_firmware_refused image e h) (refused e)
  | inr (inr h) ↦ absurd (check_image-ne-panic image h)
]

pub load_firmware-Ends :
    (image : List ℕ) (s : DeviceState)
    → Ends (record { state = s }) (Controller.load_firmware (record { state = s }) image)
unfolding Controller.load_firmware
load_firmware-Ends image DeviceState.offline = load_offline-Ends image
load_firmware-Ends image (DeviceState.firmware_loaded info) = refused _
load_firmware-Ends image (DeviceState.ready info) = refused _
load_firmware-Ends image DeviceState.faulted = refused _

pub start-Ends :
    (s : DeviceState) → Ends (record { state = s }) (Controller.start (record { state = s }))
unfolding Controller.start
start-Ends (DeviceState.firmware_loaded info) = moved _ (Transition.starts info)
start-Ends DeviceState.offline = refused _
start-Ends (DeviceState.ready info) = refused _
start-Ends DeviceState.faulted = refused _

-- Every call of the controller either makes an allowed transition and returns success, or returns an
-- error and changes nothing; it never panics.
pub apply-Ends : (c : DeviceController) (e : Call) → Ends c (apply c e)
unfolding apply Controller.reset
apply-Ends c (load_firmware image) = load_firmware-Ends image c.state
apply-Ends c start = start-Ends c.state
apply-Ends c reset = moved _ (Transition.resets c.state)

-- Every allowed transition is made by some call.
pub Transition-apply :
    {s t : DeviceState}
    → Transition s t
    → (e : Call) × (apply (record { state = s }) e ≡ (record { state = t }, ok tt))
unfolding apply Controller.start Controller.reset
Transition-apply (loads info h) = (
  load_firmware (image_of 1 info.minor []),
  load_firmware_accepted info.minor []
      ∙ ap
          (λ n. (
            record {
              state = DeviceState.firmware_loaded (record { major = n; minor = info.minor });
            },
            ok tt,
          ))
          (sym h),
)
Transition-apply (starts info) = (start, refl)
Transition-apply (resets s) = (reset, refl)

-- The states that calls can lead to from offline: never faulted, and only with supported firmware.
abbrev pub IsLegal : DeviceState → Type 0
IsLegal DeviceState.offline = Unit
IsLegal (DeviceState.firmware_loaded info) = info.major ≡ 1
IsLegal (DeviceState.ready info) = info.major ≡ 1
IsLegal DeviceState.faulted = ⊥

Transition-IsLegal : {s t : DeviceState} → Transition s t → IsLegal s → IsLegal t
Transition-IsLegal (loads info h) l = h
Transition-IsLegal (starts info) l = l
Transition-IsLegal (resets s) l = tt

pub Ends-IsLegal :
    {c : DeviceController} {r : DeviceController × Outcome StateError (Unit {0})}
    → Ends c r
    → IsLegal c.state
    → IsLegal r.0.state
Ends-IsLegal (moved d t) l = Transition-IsLegal t l
Ends-IsLegal (refused e) l = l

-- The state after a sequence of calls.
pub run : DeviceController → List Call → DeviceController
run c [] = c
run c (e ∷ es) = run (apply c e).0 es

-- From a legal state any calls lead to a legal one: not faulted, and with firmware, if any, of major
-- version 1.
pub run-IsLegal :
    (c : DeviceController) (es : List Call) → IsLegal c.state → IsLegal (run c es).state
unfolding run
run-IsLegal c [] l = l
run-IsLegal c (e ∷ es) l = run-IsLegal (apply c e).0 es (Ends-IsLegal (apply-Ends c e) l)

-- `ensure_ready` answers exactly in a ready state, with its firmware.
pub ensure_ready_iff :
    (c : DeviceController) (info : FirmwareInfo)
    → (Controller.ensure_ready c ≡ ok info) ↔ (c.state ≡ DeviceState.ready info)
unfolding Controller.ensure_ready
ensure_ready_iff c info = ground arith

pub Ends-ne-panic :
    {c : DeviceController} {r : DeviceController × Outcome StateError (Unit {0})}
    → Ends c r
    → r.1 ≢ panic
Ends-ne-panic (moved d t) = ground arith
Ends-ne-panic (refused e) = ground arith

pub ensure_ready-ne-panic : (c : DeviceController) → Controller.ensure_ready c ≢ panic
unfolding Controller.ensure_ready
ensure_ready-ne-panic c = ground arith
