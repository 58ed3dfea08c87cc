-- ===== src/UnitTests/Lifecycle.antt =====
-- src/device_state.rs: its unit tests.
use rust_gpu_driver_lab.Base.{ℕ, ◌≡◌, refl, List, [], ◌∷◌, ◌++◌, err}
use rust_gpu_driver_lab.DeviceState.{
  FirmwareInfo, DeviceState, StateKind, invalid_state, firmware_too_short, invalid_firmware_magic,
  unsupported_firmware_major, default, magic, check_image, load_firmware, start, ensure_ready,
  reset,
}
use rust_gpu_driver_lab.UnitTests.{Unwrap, UnwrapCall}

-- `b"RGPU\x01\x07"`.
abbrev valid_firmware : List ℕ
valid_firmware = magic ++ (1 ∷ 7 ∷ [])

abbrev firmware_1_7 : FirmwareInfo
firmware_1_7 = record { major = 1; minor = 7 }

ValidFirmwareReachesReadyState : Type 0
ValidFirmwareReachesReadyState = UnwrapCall (load_firmware default valid_firmware) λ controller _.
    UnwrapCall (start controller) λ controller _. controller.state ≡ DeviceState.ready firmware_1_7

StartingOfflineDeviceIsRejected : Type 0
StartingOfflineDeviceIsRejected =
    let (controller, result) = start default in
    (result ≡ err (invalid_state "start" StateKind.offline))
    × (controller.state ≡ DeviceState.offline)

InvalidMagicPreservesOfflineState : Type 0
InvalidMagicPreservesOfflineState =
    let (controller, result) = load_firmware default (b'F' ∷ b'A' ∷ b'I' ∷ b'L' ∷ 1 ∷ 0 ∷ []) in
    (result ≡ err invalid_firmware_magic) × (controller.state ≡ DeviceState.offline)

UnsupportedFirmwareIsRejected : Type 0
UnsupportedFirmwareIsRejected =
    let (controller, result) = load_firmware default (magic ++ (2 ∷ 0 ∷ [])) in
    (result ≡ err (unsupported_firmware_major 2)) × (controller.state ≡ DeviceState.offline)

LoadingFirmwareTwiceIsRejected : Type 0
LoadingFirmwareTwiceIsRejected = UnwrapCall (load_firmware default valid_firmware) λ controller _.
    let (controller, result) = load_firmware controller valid_firmware in
    (result ≡ err (invalid_state "load_firmware" StateKind.firmware_loaded))
    × (controller.state ≡ DeviceState.firmware_loaded firmware_1_7)

EnsureReadyReturnsBorrowedFirmwareInformation : Type 0
EnsureReadyReturnsBorrowedFirmwareInformation =
    UnwrapCall (load_firmware default valid_firmware) λ controller _.
      UnwrapCall (start controller) λ controller _.
        Unwrap (ensure_ready controller) λ firmware. (firmware.major ≡ 1) × (firmware.minor ≡ 7)

ResetReturnsDeviceToOffline : Type 0
ResetReturnsDeviceToOffline = UnwrapCall (load_firmware default valid_firmware) λ controller _.
    UnwrapCall (start controller) λ controller _. (reset controller).state ≡ DeviceState.offline

EnsureReadyFailsInvalidState : Type 0
EnsureReadyFailsInvalidState = UnwrapCall (load_firmware default valid_firmware) λ controller _.
    (ensure_ready controller ≡ err (invalid_state "ensure_ready" StateKind.firmware_loaded))
    × (controller.state ≡ DeviceState.firmware_loaded firmware_1_7)

FirmwareShorterThanHeaderIsRejected : Type 0
FirmwareShorterThanHeaderIsRejected =
    let (controller, result) = load_firmware default (magic ++ (1 ∷ [])) in
    (result ≡ err (firmware_too_short 5)) × (controller.state ≡ DeviceState.offline)

FirmwareWithPayloadIsAccepted : Type 0
FirmwareWithPayloadIsAccepted =
    let payload = b'p' ∷ b'a' ∷ b'y' ∷ b'l' ∷ b'o' ∷ b'a' ∷ b'd' ∷ [] in
    UnwrapCall (load_firmware default (valid_firmware ++ payload))
      λ controller _. controller.state ≡ DeviceState.firmware_loaded firmware_1_7

-- Every test passes.
tests_pass :
    ValidFirmwareReachesReadyState × StartingOfflineDeviceIsRejected
    × InvalidMagicPreservesOfflineState × UnsupportedFirmwareIsRejected
    × LoadingFirmwareTwiceIsRejected × EnsureReadyReturnsBorrowedFirmwareInformation
    × ResetReturnsDeviceToOffline × EnsureReadyFailsInvalidState
    × FirmwareShorterThanHeaderIsRejected × FirmwareWithPayloadIsAccepted
unfolding ValidFirmwareReachesReadyState StartingOfflineDeviceIsRejected
    InvalidMagicPreservesOfflineState UnsupportedFirmwareIsRejected LoadingFirmwareTwiceIsRejected
    EnsureReadyReturnsBorrowedFirmwareInformation ResetReturnsDeviceToOffline
    EnsureReadyFailsInvalidState FirmwareShorterThanHeaderIsRejected FirmwareWithPayloadIsAccepted
    load_firmware check_image start ensure_ready reset
tests_pass = (
  refl,
  (refl, refl),
  (refl, refl),
  (refl, refl),
  (refl, refl),
  (refl, refl),
  refl,
  (refl, refl),
  (refl, refl),
  refl,
)
