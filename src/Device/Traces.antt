-- ===== src/Device/Traces.antt =====
-- src/lib.rs: every public method of `GpuDevice`, and what its caller sees, over sequences of calls.
use rust_gpu_driver_lab.Base.{ℕ, List, [], ◌∷◌, Run, Outcome, ok, err, panic}
use rust_gpu_driver_lab.Device
use rust_gpu_driver_lab.Device.{GpuDevice}
use rust_gpu_driver_lab.Device.Buffer
use rust_gpu_driver_lab.Device.Buffer.{BufferId, DriverError, GpuBuffer}

pub data Call : Type 0 where
  allocate_buffer : (capacity : ℕ) → Call
  write_buffer : BufferId → List ℕ → Call
  write_buffer_at : BufferId → (offset : ℕ) → List ℕ → Call
  clear_buffer : BufferId → Call
  release_buffer : BufferId → Call
  read_buffer : BufferId → Call
  read_buffer_range : BufferId → (offset length : ℕ) → Call
  initialized_len : BufferId → Call
  buffer_count : Call

-- What the owner of a released buffer can ask of it: `id`, `capacity` and `data`.
pub record Released : Type 0 where
  pub id : BufferId
  pub capacity : ℕ
  pub contents : Run (List ℕ)

pub data Reply : Type 0 where
  allocated : Outcome DriverError BufferId → Reply
  done : Outcome DriverError (Unit {0}) → Reply
  released : Outcome DriverError Released → Reply
  bytes : Outcome DriverError (List ℕ) → Reply
  measured : Outcome DriverError ℕ → Reply
  counted : ℕ → Reply

abbrev pub look : GpuBuffer → Released
look b = record { id = b.id; capacity = Buffer.capacity b; contents = Buffer.contents b }

abbrev pub look_at : Outcome DriverError GpuBuffer → Outcome DriverError Released
look_at (ok b) = ok (look b)
look_at (err e) = err e
look_at panic = panic

unfoldable pub step : GpuDevice → Call → GpuDevice × Reply
step d (allocate_buffer capacity) =
    let (e, r) = Device.allocate_buffer d capacity in (e, allocated r)
step d (write_buffer id xs) = let (e, r) = Device.write_buffer d id xs in (e, done r)
step d (write_buffer_at id offset xs) =
    let (e, r) = Device.write_buffer_at d id offset xs in (e, done r)
step d (clear_buffer id) = let (e, r) = Device.clear_buffer d id in (e, done r)
step d (release_buffer id) = let (e, r) = Device.release_buffer d id in (e, released (look_at r))
step d (read_buffer id) = (d, bytes (Device.read_buffer d id))
step d (read_buffer_range id offset n) = (d, bytes (Device.read_buffer_range d id offset n))
step d (initialized_len id) = (d, measured (Device.initialized_len d id))
step d buffer_count = (d, counted (Device.buffer_count d))

-- What the caller sees of each call in turn.
unfoldable pub run : GpuDevice → List Call → List Reply
run d [] = []
run d (c ∷ cs) = (step d c).1 ∷ run (step d c).0 cs
