-- ===== src/GenericDriver/Invariant.antt =====
-- src/generic_driver.rs: what holds of the driver after any sequence of calls.
use rust_gpu_driver_lab.Base.{ℕ, ◌+◌, ◌≤◌, ◌≡◌, List, [], arith, some, All, All-map, ok, refl}
use rust_gpu_driver_lab.Base.HashMap
use rust_gpu_driver_lab.Command.Laws.{IsWellFormed}
use rust_gpu_driver_lab.DeviceState.Lifecycle.{IsLegal}
use rust_gpu_driver_lab.Device
use rust_gpu_driver_lab.Device.{GpuDevice}
use rust_gpu_driver_lab.Device.Buffer
use rust_gpu_driver_lab.Device.Buffer.{BufferId, GpuBuffer}
use rust_gpu_driver_lab.Device.Capacity.{HasCapacity}
use rust_gpu_driver_lab.Device.Invariant.{default-IsValid, found-IsSound}
use rust_gpu_driver_lab.Device.Invariant
use rust_gpu_driver_lab.Submission.{
  ValidatedSubmission, SubmissionRequest, validate_submission, device_info,
}
use rust_gpu_driver_lab.Submission.Laws.{validate_submission-ok}
use rust_gpu_driver_lab.Fifo
use rust_gpu_driver_lab.Fifo.Unique.{All-enqueue, All-dequeue}
use rust_gpu_driver_lab.QueueBackend.{SubmissionQueue, Contract}
use rust_gpu_driver_lab.GenericDriver
use rust_gpu_driver_lab.GenericDriver.{GenericGpuDriver, GenericDriverError}

-- The command of a queued submission is well formed, and its range lies in a buffer that exists.
pub record IsBacked (d : GpuDevice) (s : ValidatedSubmission) : Type 0 where
  pub size : ℕ
  pub buffer : HasCapacity d s.buffer_id size
  pub range_in : s.command.range.offset + s.command.range.length ≤ size
  pub well_formed : IsWellFormed s.command

module _ {backend : SubmissionQueue} (contract : Contract backend) (c : ℕ) where
  -- The driver stands for the queue `xs`.
  pub record IsValid (d : GenericGpuDriver backend) (xs : List ValidatedSubmission) : Type 0 where
    pub device : Invariant.IsValid d.device
    pub firmware : IsLegal d.controller.state
    pub queued : contract.Represents c d.queue xs
    pub backed : All (IsBacked d.device) xs

IsBacked-device :
    (d e : GpuDevice)
    → ((id : BufferId) (n : ℕ) → HasCapacity d id n → HasCapacity e id n)
    → (s : ValidatedSubmission) → IsBacked d s
    → IsBacked e s
IsBacked-device d e keeps s b = record {
  size = b.size;
  buffer = keeps s.buffer_id b.size b.buffer;
  range_in = b.range_in;
  well_formed = b.well_formed;
}

initialized_len_found :
    (d : GpuDevice) (id : BufferId) (n : ℕ)
    → Device.initialized_len d id ≡ ok n
    → (b : GpuBuffer) × (HashMap.get id d.buffers ≡ some b) × (n ≡ b.used)
unfolding Device.initialized_len
initialized_len_found d id n h = ground arith

-- What validation accepts on a valid device is backed by it.
pub validated-IsBacked :
    (d : GpuDevice) (request : SubmissionRequest) {s : ValidatedSubmission}
    → Invariant.IsValid d
    → validate_submission d request ≡ ok s
    → IsBacked d s
validated-IsBacked d request {s} v h =
    let (n, a, e, fits, made) = validate_submission-ok d request h in
    let (b, there, used) = initialized_len_found d request.buffer_id n e in
    let within = (found-IsSound request.buffer_id v there).used_in in
    rw made (record {
      size = Buffer.capacity b;
      buffer = (b, there, refl);
      range_in = omega arith;
      well_formed = omega arith;
    })

module _ {backend : SubmissionQueue} (contract : Contract backend) (c : ℕ)
    (d : GenericGpuDriver backend) (xs : List ValidatedSubmission)
    (v : IsValid contract c d xs) where
  -- A call on the device that keeps its invariant and its buffers keeps the driver's invariant.
  pub device-IsValid :
      (e : GpuDevice)
      → Invariant.IsValid e
      → ((id : BufferId) (n : ℕ) → HasCapacity d.device id n → HasCapacity e id n)
      → IsValid contract c (record d { device = e }) xs
  device-IsValid e w keeps = record {
    device = w;
    firmware = v.firmware;
    queued = v.queued;
    backed =
        All-map (IsBacked d.device) (IsBacked e) (IsBacked-device d.device e keeps) xs v.backed;
  }

  -- Queueing what validation made keeps the invariant.
  pub enqueue-IsValid :
      (s : ValidatedSubmission)
      → IsBacked d.device s
      → IsValid contract c
          (record d { queue = (backend.enqueue d.queue s).0 })
          (Fifo.enqueue c xs s).0
  enqueue-IsValid s b = record {
    device = v.device;
    firmware = v.firmware;
    queued = contract.enqueue_state c d.queue xs s v.queued;
    backed = All-enqueue (IsBacked d.device) c xs s v.backed b;
  }

  -- Taking the oldest submission keeps the invariant of the driver with the rest.
  pub dequeue-IsValid :
      (q : backend.Queue)
      → contract.Represents c q (Fifo.dequeue xs).0
      → IsValid contract c (record d { queue = q }) (Fifo.dequeue xs).0
  dequeue-IsValid q r = record {
    device = v.device;
    firmware = v.firmware;
    queued = r;
    backed = All-dequeue (IsBacked d.device) xs v.backed;
  }

-- A new driver over an empty queue.
pub new-IsValid :
    {backend : SubmissionQueue} (contract : Contract backend) (c : ℕ) (q : backend.Queue)
    → contract.Represents c q []
    → IsValid contract c (GenericDriver.new backend q) []
unfolding GenericDriver.new
new-IsValid contract c q r = record {
  device = default-IsValid;
  firmware = tt;
  queued = r;
  backed = tt;
}
