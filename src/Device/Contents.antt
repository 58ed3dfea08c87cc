-- ===== src/Device/Contents.antt =====
-- src/lib.rs: how each operation of a valid device ends, and what a client reads afterwards.
use rust_gpu_driver_lab.Base.{
  ℕ, ◌+◌, ◌≡◌, List, arith, none, some, length, take, drop, ok, err, if◌then◌else◌, leb, usize_max,
}
use rust_gpu_driver_lab.Base.HashMap
use rust_gpu_driver_lab.Base.HashMap.{get-insert, get-remove}
use rust_gpu_driver_lab.Device
use rust_gpu_driver_lab.Device.{GpuDevice, store, find}
use rust_gpu_driver_lab.Device.Buffer
use rust_gpu_driver_lab.Device.Buffer.{
  BufferId, GpuBuffer, DriverError, unknown_buffer, write_too_large, write_out_of_bounds,
  range_overflow, read_out_of_bounds,
}
use rust_gpu_driver_lab.Device.Buffer.Views.{
  IsSound, view, rewritten, written_at, contents-view, write_lem, write_at_lem, read_range_lem,
}

module _ (d : GpuDevice) (id : BufferId) {b : GpuBuffer}
    (there : HashMap.get id d.buffers ≡ some b) where
  pub write_buffer_found :
      (bytes : List ℕ)
      → Device.write_buffer d id bytes ≡ (
          if leb (length bytes) (Buffer.capacity b)
          then (store d id (rewritten b bytes), ok tt)
          else (d, err (write_too_large (Buffer.capacity b) (length bytes))))
  unfolding Device.write_buffer
  write_buffer_found bytes = ground (arith, write_lem b bytes)

  pub write_buffer_at_found :
      (offset : ℕ) (bytes : List ℕ)
      → IsSound b
      → Device.write_buffer_at d id offset bytes ≡ (
          if leb (offset + length bytes) usize_max
          then if leb (offset + length bytes) (Buffer.capacity b)
            then (store d id (written_at b offset bytes), ok tt)
            else (d, err (write_out_of_bounds offset (length bytes) (Buffer.capacity b)))
          else (d, err (range_overflow offset (length bytes))))
  unfolding Device.write_buffer_at
  write_buffer_at_found offset bytes s = ground (arith, write_at_lem b offset bytes s)

  pub read_buffer_found : IsSound b → Device.read_buffer d id ≡ ok (view b)
  unfolding Device.read_buffer
  read_buffer_found s = ground (arith, contents-view b s)

  pub read_buffer_range_found :
      (offset n : ℕ)
      → IsSound b
      → Device.read_buffer_range d id offset n ≡ (
          if leb (offset + n) usize_max
          then if leb (offset + n) b.used
            then ok (take n (drop offset (view b)))
            else err (read_out_of_bounds offset n b.used)
          else err (range_overflow offset n))
  unfolding Device.read_buffer_range
  read_buffer_range_found offset n s = ground (arith, read_range_lem b offset n s)

  pub clear_buffer_found : Device.clear_buffer d id ≡ (store d id (Buffer.clear b), ok tt)
  unfolding Device.clear_buffer
  clear_buffer_found = ground arith

  pub release_buffer_found :
      Device.release_buffer d id ≡ (record d { buffers = HashMap.remove id d.buffers }, ok b)
  unfolding Device.release_buffer
  release_buffer_found = ground arith

-- A buffer that was not found.
module _ (d : GpuDevice) (id : BufferId) (absent : HashMap.get id d.buffers ≡ none) where
  pub write_buffer_absent :
      (bytes : List ℕ) → Device.write_buffer d id bytes ≡ (d, err (unknown_buffer id))
  unfolding Device.write_buffer
  write_buffer_absent bytes = rw absent

  pub write_buffer_at_absent :
      (offset : ℕ) (bytes : List ℕ)
      → Device.write_buffer_at d id offset bytes ≡ (d, err (unknown_buffer id))
  unfolding Device.write_buffer_at
  write_buffer_at_absent offset bytes = rw absent

  pub read_buffer_absent : Device.read_buffer d id ≡ err (unknown_buffer id)
  unfolding Device.read_buffer
  read_buffer_absent = rw absent

  pub read_buffer_range_absent :
      (offset n : ℕ) → Device.read_buffer_range d id offset n ≡ err (unknown_buffer id)
  unfolding Device.read_buffer_range
  read_buffer_range_absent offset n = rw absent

  pub clear_buffer_absent : Device.clear_buffer d id ≡ (d, err (unknown_buffer id))
  unfolding Device.clear_buffer
  clear_buffer_absent = rw absent

  pub release_buffer_absent : Device.release_buffer d id ≡ (d, err (unknown_buffer id))
  unfolding Device.release_buffer
  release_buffer_absent = rw absent

-- What a client reads depends on the entry alone.
pub read_buffer_same :
    (d e : GpuDevice) (id : BufferId)
    → HashMap.get id d.buffers ≡ HashMap.get id e.buffers
    → Device.read_buffer d id ≡ Device.read_buffer e id
unfolding Device.read_buffer
read_buffer_same d e id h = rw h
