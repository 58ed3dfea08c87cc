-- ===== src/TypedDriver/Typestate.antt =====
-- src/typed_driver.rs, src/typed_generic_driver.rs: what a marker says of the state at run time.
use rust_gpu_driver_lab.Base.{ℕ, List, ◌≡◌, refl, inl, inr, Outcome, ok, err, panic, Outcome-cases}
use rust_gpu_driver_lab.DeviceState as Controller
use rust_gpu_driver_lab.DeviceState.{DeviceState, DeviceController, StateError}
use rust_gpu_driver_lab.DeviceState.Firmware.{check_image_iff, check_image-ne-panic}
use rust_gpu_driver_lab.DeviceState.Lifecycle.{load_firmware_accepted, load_firmware_refused}
use rust_gpu_driver_lab.TypedDriver.{DriverState}

-- The state that a marker names.
abbrev pub Matches : DriverState → DeviceState → Type 0
Matches DriverState.offline DeviceState.offline = Unit
Matches DriverState.firmware_loaded (DeviceState.firmware_loaded info) = Unit
Matches DriverState.ready (DeviceState.ready info) = Unit
Matches _ _ = ⊥

-- After a transition the state matches the new marker, or is the one before.
abbrev pub After :
    DriverState → DeviceState → DeviceController × Outcome StateError (Unit {0}) → Type 0
After t s (c, ok _) = Matches t c.state
After t s (c, err _) = c.state ≡ s
After t s (c, panic) = ⊥

load_offline-After :
    (image : List ℕ)
    → After DriverState.firmware_loaded DeviceState.offline
        (Controller.load_firmware Controller.default image)
load_offline-After image = elim (Outcome-cases (Controller.check_image image)) [
  | inl (_, e) ↦
      let (minor, payload, is_image) = (check_image_iff image).0 e in
      rw (is_image, load_firmware_accepted minor payload) tt
  | inr (inl (e, h)) ↦ rw (load_firmware_refused image e h) refl
  | inr (inr h) ↦ absurd (check_image-ne-panic image h)
]

pub load_firmware-After :
    (s : DeviceState) (image : List ℕ)
    → Matches DriverState.offline s
    → After DriverState.firmware_loaded s (Controller.load_firmware (record { state = s }) image)
load_firmware-After DeviceState.offline image h = load_offline-After image
load_firmware-After (DeviceState.firmware_loaded info) image h = absurd h
load_firmware-After (DeviceState.ready info) image h = absurd h
load_firmware-After DeviceState.faulted image h = absurd h

-- Starting loaded firmware succeeds.
pub start_succeeds :
    (s : DeviceState)
    → Matches DriverState.firmware_loaded s
    → (c : DeviceController) × (Controller.start (record { state = s }) ≡ (c, ok tt))
      × Matches DriverState.ready c.state
unfolding Controller.start
start_succeeds (DeviceState.firmware_loaded info) h = (_, refl, tt)
start_succeeds DeviceState.offline h = absurd h
start_succeeds (DeviceState.ready info) h = absurd h
start_succeeds DeviceState.faulted h = absurd h
