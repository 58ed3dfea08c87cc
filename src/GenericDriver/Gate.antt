-- ===== src/GenericDriver/Gate.antt =====
-- src/generic_driver.rs: nothing but the lifecycle runs before the device is ready.
use rust_gpu_driver_lab.Base.{ℕ, ◌≡◌, List, ok, err, refl}
use rust_gpu_driver_lab.Command.{RawCommand}
use rust_gpu_driver_lab.DeviceState as Controller
use rust_gpu_driver_lab.DeviceState.{
  DeviceController, DeviceState, FirmwareInfo, invalid_state, kind,
}
use rust_gpu_driver_lab.Device.Buffer.{BufferId}
use rust_gpu_driver_lab.QueueBackend.{SubmissionQueue}
use rust_gpu_driver_lab.GenericDriver
use rust_gpu_driver_lab.GenericDriver.{GenericGpuDriver, GenericDriverError, device_state}

abbrev pub IsReady : DeviceState → Type 0
IsReady (DeviceState.ready info) = Unit
IsReady _ = ⊥

pub not_ready-error :
    (c : DeviceController)
    → ¬ IsReady c.state
    → Controller.ensure_ready c ≡ err (invalid_state "ensure_ready" (kind c.state))
not_ready-error c = from c.state
  where
    from :
        (s : DeviceState)
        → ¬ IsReady s
        → Controller.ensure_ready (record { state = s })
          ≡ err (invalid_state "ensure_ready" (kind s))
    from DeviceState.offline h = unfold Controller.ensure_ready in refl
    from (DeviceState.firmware_loaded info) h = unfold Controller.ensure_ready in refl
    from (DeviceState.ready info) h = absurd (h tt)
    from DeviceState.faulted h = unfold Controller.ensure_ready in refl

pub ready-ok :
    (c : DeviceController)
    → IsReady c.state
    → (info : FirmwareInfo) × (Controller.ensure_ready c ≡ ok info)
ready-ok c = from c.state
  where
    from :
        (s : DeviceState)
        → IsReady s
        → (info : FirmwareInfo) × (Controller.ensure_ready (record { state = s }) ≡ ok info)
    from (DeviceState.ready info) h = (info, unfold Controller.ensure_ready in refl)
    from DeviceState.offline h = absurd h
    from (DeviceState.firmware_loaded info) h = absurd h
    from DeviceState.faulted h = absurd h

-- Before the device is ready, allocating, writing and submitting are refused with the state that the
-- device is in, and change nothing.
pub gated :
    (backend : SubmissionQueue) (d : GenericGpuDriver backend) (capacity : ℕ) (id : BufferId)
    (bytes : List ℕ) (command : RawCommand)
    → ¬ IsReady (device_state d)
    → let refused : GenericDriverError backend.Error =
        GenericDriverError.state (invalid_state "ensure_ready" (kind (device_state d))) in
      (GenericDriver.allocate_buffer backend d capacity ≡ (d, err refused))
      × (GenericDriver.write_buffer backend d id bytes ≡ (d, err refused))
      × (GenericDriver.submit backend d id command ≡ (d, err refused))
unfolding GenericDriver.allocate_buffer GenericDriver.write_buffer GenericDriver.submit
gated backend d capacity id bytes command h =
    let e = not_ready-error d.controller h in (rw e, rw e, rw e)
