-- ===== src/Device.antt =====
-- src/lib.rs: the buffers that are allocated to the simulated device.
-- Bytes are only moved, never computed with, so a byte is any number.
pub mod Buffer
pub mod Invariant
pub mod Contents
pub mod RoundTrip
pub mod Reading
pub mod Allocation
pub mod Capacity
pub mod Calls
pub mod Runs
pub mod Traces
pub mod Memory
use rust_gpu_driver_lab.Base.{
  ℕ, List, [], Option, none, some, ◌==◌, vec_filled, Outcome, ok, err, panic, ◌>>=◌, ◌>>◌, ok_or,
  call, reject_if, commit, commit_with, checked_add, u32_max,
}
use rust_gpu_driver_lab.Base.HashMap
use rust_gpu_driver_lab.Device.Buffer
use rust_gpu_driver_lab.Device.Buffer.{
  BufferId, DriverError, GpuBuffer, zero_sized_allocation, unknown_buffer, buffer_id_exhausted,
}

pub record GpuDevice : Type 0 where
  pub next_id : ℕ
  pub buffers : List (ℕ × GpuBuffer)

-- `GpuDevice::default`.
abbrev pub default : GpuDevice
default = record { next_id = 0; buffers = [] }

-- `self.buffers.get(&id).ok_or(DriverError::UnknownBuffer(id))?`.
abbrev pub find : GpuDevice → BufferId → Outcome DriverError GpuBuffer
find d id = ok_or (HashMap.get id d.buffers) (unknown_buffer id)

-- Writing back through the reference that `get_mut` returned.
abbrev pub store : GpuDevice → BufferId → GpuBuffer → GpuDevice
store d id buffer = record d { buffers = HashMap.insert id buffer d.buffers }

unfoldable pub write_buffer_at :
    GpuDevice → BufferId → ℕ → List ℕ → GpuDevice × Outcome DriverError (Unit {0})
write_buffer_at d id offset bytes =
    commit d
      do buffer ← find d id; written ← Buffer.write_at buffer offset bytes; ok (store d id written)

unfoldable pub read_buffer_range : GpuDevice → BufferId → ℕ → ℕ → Outcome DriverError (List ℕ)
read_buffer_range d id offset length = do buffer ← find d id; Buffer.read_range buffer offset length

unfoldable pub clear_buffer : GpuDevice → BufferId → GpuDevice × Outcome DriverError (Unit {0})
unfolding Buffer.clear
clear_buffer d id = commit d do buffer ← find d id; ok (store d id (Buffer.clear buffer))

-- The checks of `allocate_buffer`, and the identifier after the one that it hands out.
abbrev pub advanced_id : GpuDevice → ℕ → Outcome DriverError ℕ
advanced_id d capacity = do
  reject_if (capacity == 0) zero_sized_allocation
  ok_or (checked_add u32_max d.next_id 1) buffer_id_exhausted

-- The counter is advanced before the storage is allocated.
unfoldable pub allocate_buffer : GpuDevice → ℕ → GpuDevice × Outcome DriverError BufferId
allocate_buffer d capacity = elim (advanced_id d capacity) [
  | ok next_id ↦
      commit_with (record d { next_id = next_id })
        do
          storage ← call (vec_filled 0 capacity)
          let id : BufferId = d.next_id
          let buffer : GpuBuffer = record { id = id; storage = storage; used = 0 }
          ok (record { next_id = next_id; buffers = HashMap.insert id buffer d.buffers }, id)
  | err e ↦ (d, err e)
  | panic ↦ (d, panic)
]

unfoldable pub write_buffer :
    GpuDevice → BufferId → List ℕ → GpuDevice × Outcome DriverError (Unit {0})
write_buffer d id bytes =
    commit d do buffer ← find d id; written ← Buffer.write buffer bytes; ok (store d id written)

unfoldable pub read_buffer : GpuDevice → BufferId → Outcome DriverError (List ℕ)
read_buffer d id = do buffer ← find d id; call (Buffer.contents buffer)

unfoldable pub release_buffer : GpuDevice → BufferId → GpuDevice × Outcome DriverError GpuBuffer
release_buffer d id =
    commit_with d
      do buffer ← find d id; ok (record d { buffers = HashMap.remove id d.buffers }, buffer)

unfoldable pub buffer_count : GpuDevice → ℕ
buffer_count d = HashMap.length d.buffers

unfoldable pub initialized_len : GpuDevice → BufferId → Outcome DriverError ℕ
initialized_len d id = do buffer ← find d id; ok buffer.used
