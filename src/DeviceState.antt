-- ===== src/DeviceState.antt =====
-- src/device_state.rs: the lifecycle of the device, from offline over loaded firmware to ready.
pub mod Firmware
pub mod Lifecycle
use Prim.Native.String.{String}
use rust_gpu_driver_lab.Base.{
  ℕ, not, List, [], ◌∷◌, ltb, ◌==◌, length, index, slice, bytes_eq, Outcome, ok, err, panic, ◌>>=◌,
  ◌>>◌, call, reject_if, commit, Bool, true, false,
}

pub record FirmwareInfo : Type 0 where
  pub major : ℕ
  pub minor : ℕ

pub data StateKind : Type 0 where
  offline firmware_loaded ready faulted : StateKind

pub data DeviceState : Type 0 where
  offline : DeviceState
  firmware_loaded : FirmwareInfo → DeviceState
  ready : FirmwareInfo → DeviceState
  faulted : DeviceState

-- `DeviceState::kind`.
abbrev pub kind : DeviceState → StateKind
kind DeviceState.offline = StateKind.offline
kind (DeviceState.firmware_loaded _) = StateKind.firmware_loaded
kind (DeviceState.ready _) = StateKind.ready
kind DeviceState.faulted = StateKind.faulted

pub data StateError : Type 0 where
  invalid_state : (operation : String) (actual : StateKind) → StateError
  firmware_too_short : (actual : ℕ) → StateError
  invalid_firmware_magic : StateError
  unsupported_firmware_major : (found : ℕ) → StateError

pub record DeviceController : Type 0 where
  pub state : DeviceState

-- `DeviceController::default`.
abbrev pub default : DeviceController
default = record { state = DeviceState.offline }

-- `b"RGPU"`.
abbrev pub magic : List ℕ
magic = b'R' ∷ b'G' ∷ b'P' ∷ b'U' ∷ []

unfoldable pub check_image : List ℕ → Outcome StateError (Unit {0})
check_image image = do
  reject_if (ltb (length image) 6) (firmware_too_short (length image))
  head ← call (slice image 0 4)
  reject_if (not (bytes_eq head magic)) invalid_firmware_magic
  major ← call (index image 4)
  reject_if (not (major == 1)) (unsupported_firmware_major major)

-- `actual != StateKind::Offline`.
abbrev pub is_offline : StateKind → Bool
is_offline StateKind.offline = true
is_offline _ = false

unfoldable pub load_firmware :
    DeviceController → List ℕ → DeviceController × Outcome StateError (Unit {0})
load_firmware c image = commit c do
  reject_if (not (is_offline (kind c.state))) (invalid_state "load_firmware" (kind c.state))
  check_image image
  major ← call (index image 4)
  minor ← call (index image 5)
  ok (record { state = DeviceState.firmware_loaded (record { major = major; minor = minor }) })

-- The match of `start` on the state that it took out.
abbrev start_from : DeviceState → DeviceState × Outcome StateError (Unit {0})
start_from (DeviceState.firmware_loaded info) = (DeviceState.ready info, ok tt)
start_from other = (other, err (invalid_state "start" (kind other)))

unfoldable pub start : DeviceController → DeviceController × Outcome StateError (Unit {0})
start c = let (state, result) = start_from c.state in (record { state = state }, result)

-- The match of `ensure_ready` on the state.
abbrev ready_info : DeviceState → Outcome StateError FirmwareInfo
ready_info (DeviceState.ready info) = ok info
ready_info other = err (invalid_state "ensure_ready" (kind other))

unfoldable pub ensure_ready : DeviceController → Outcome StateError FirmwareInfo
ensure_ready c = ready_info c.state

unfoldable pub reset : DeviceController → DeviceController
reset c = record { state = DeviceState.offline }
