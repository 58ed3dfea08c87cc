-- ===== src/DeviceState/Firmware.antt =====
-- src/device_state.rs: which firmware images are accepted.
use rust_gpu_driver_lab.Base.{
  ℕ, ◌<◌, ◌≡◌, ◌≢◌, ◌↔◌, List, [], ◌∷◌, ◌++◌, arith, length, take, index, returns, ◌≤◌, ok, err,
  panic,
}
use rust_gpu_driver_lab.DeviceState.{
  StateError, check_image, magic, invalid_state, firmware_too_short, invalid_firmware_magic,
  unsupported_firmware_major,
}

-- An image: the magic, the two version bytes and any payload.
abbrev pub image_of : ℕ → ℕ → List ℕ → List ℕ
image_of major minor payload = magic ++ (major ∷ minor ∷ payload)

accepted :
    (image : List ℕ)
    → check_image image ≡ ok tt
    → (minor : ℕ) × (payload : List ℕ) × (image ≡ image_of 1 minor payload)
unfolding check_image
accepted (a ∷ b ∷ c ∷ d ∷ j ∷ n ∷ p) h = (n, p, ground arith)
accepted [] h = cc
accepted _ h = cc

-- An image is accepted exactly when it is the magic, major version 1, a minor version and any payload
pub check_image_iff :
    (image : List ℕ)
    → (check_image image ≡ ok tt)
      ↔ ((minor : ℕ) × (payload : List ℕ) × (image ≡ image_of 1 minor payload))
unfolding check_image
check_image_iff image = (accepted image, λ found. rw (found.2) (ground arith))

pub check_image-ne-panic : (image : List ℕ) → check_image image ≢ panic
unfolding check_image
check_image-ne-panic (a ∷ b ∷ c ∷ d ∷ j ∷ n ∷ p) = ground arith
check_image-ne-panic [] = ground arith
check_image-ne-panic _ = ground arith

-- The error of a refused image is that of the first check that it fails.
abbrev pub FirstFault : List ℕ → StateError → Type 0
FirstFault image (firmware_too_short n) = (length image < 6) × (n ≡ length image)
FirstFault image invalid_firmware_magic = (6 ≤ length image) × (take 4 image ≢ magic)
FirstFault image (unsupported_firmware_major v) =
    (6 ≤ length image) × (take 4 image ≡ magic) × (index image 4 ≡ returns v) × (v ≢ 1)
FirstFault image (invalid_state _ _) = ⊥

-- An image is refused with an error exactly if the error is the one of the first check that fails, in
-- the order length, magic, major version, and it carries the offending value.
pub check_image-FirstFault :
    (image : List ℕ) (e : StateError) → (check_image image ≡ err e) ↔ FirstFault image e
unfolding check_image
check_image-FirstFault (a ∷ b ∷ c ∷ d ∷ j ∷ n ∷ p) (firmware_too_short _) = ground arith
check_image-FirstFault (a ∷ b ∷ c ∷ d ∷ j ∷ n ∷ p) _ = ground arith
check_image-FirstFault [] (firmware_too_short _) = ground arith
check_image-FirstFault [] _ = ground arith
check_image-FirstFault _ (firmware_too_short _) = ground arith
check_image-FirstFault _ _ = ground arith
