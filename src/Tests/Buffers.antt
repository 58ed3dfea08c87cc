-- ===== src/Tests/Buffers.antt =====
-- src/lib.rs: a device with two buffers.
use rust_gpu_driver_lab.Base.{
  ℕ, ◌+◌, ◌≡◌, ◌<◌, ◌≤◌, ◌↔◌, refl, arith, List, [], ◌∷◌, ◌++◌, ok, length, take, drop,
}
use rust_gpu_driver_lab.Device
use rust_gpu_driver_lab.Device.{GpuDevice, default}
use rust_gpu_driver_lab.Device.Buffer
use rust_gpu_driver_lab.Device.Buffer.{
  BufferId, GpuBuffer, unknown_buffer, zero_sized_allocation, buffer_id_exhausted,
}
use rust_gpu_driver_lab.Device.Invariant.{IsValid, default-IsValid}
use rust_gpu_driver_lab.Device.Calls.{Call, apply, allocate_buffer, write_buffer}
use rust_gpu_driver_lab.Device.Runs.{run, device_run-IsValid, ids_never_reused}
use rust_gpu_driver_lab.Device.RoundTrip.{
  read_buffer_range-write_buffer_at, read_buffer-write_buffer_at,
}
use rust_gpu_driver_lab.Device.Reading.{read_buffer_range_iff, stale_bytes_return}
use rust_gpu_driver_lab.Device.Allocation.{allocate_buffer_lem, with_fresh}
use rust_gpu_driver_lab.Device.Traces
use rust_gpu_driver_lab.Device.Memory
use rust_gpu_driver_lab.Device.Memory.Steps.{device_run-Memory}

-- Two buffers of 8 and 4 bytes, the first with four valid bytes.
abbrev two_buffers : List Call
two_buffers = allocate_buffer 8 ∷ allocate_buffer 4 ∷ write_buffer 0 (1 ∷ 2 ∷ 3 ∷ 4 ∷ []) ∷ []

abbrev device : GpuDevice
device = run default two_buffers

device-IsValid : IsValid device
device-IsValid = device_run-IsValid two_buffers default-IsValid

device_run-IsValid_example : IsValid (run default two_buffers)
device_run-IsValid_example = device_run-IsValid two_buffers default-IsValid

ids_never_reused_example : 2 < 3
unfolding run apply Device.allocate_buffer Device.write_buffer Buffer.write
ids_never_reused_example =
    ids_never_reused {id = 2} {id' = 3} 5 6 (write_buffer 2 (7 ∷ []) ∷ []) device-IsValid refl refl

abbrev overwritten : GpuDevice
overwritten = (Device.write_buffer_at device 0 2 (9 ∷ 9 ∷ 9 ∷ [])).0

read_buffer-write_buffer_at_example :
    Device.read_buffer overwritten 0
    ≡ ok (take 2 (1 ∷ 2 ∷ 3 ∷ 4 ∷ []) ++ (9 ∷ 9 ∷ 9 ∷ []) ++ drop 5 (1 ∷ 2 ∷ 3 ∷ 4 ∷ []))
unfolding run apply Device.allocate_buffer Device.write_buffer Device.write_buffer_at
    Device.read_buffer Buffer.write Buffer.write_at Buffer.checked_end Buffer.contents
read_buffer-write_buffer_at_example =
    read_buffer-write_buffer_at {e = overwritten} 0 0 2 (9 ∷ 9 ∷ 9 ∷ []) (1 ∷ 2 ∷ 3 ∷ 4 ∷ [])
      device-IsValid refl (omega arith) refl

read_buffer_range-write_buffer_at_example :
    Device.read_buffer_range overwritten 0 2 3 ≡ ok (9 ∷ 9 ∷ 9 ∷ [])
unfolding run apply Device.allocate_buffer Device.write_buffer Device.write_buffer_at Buffer.write
    Buffer.write_at Buffer.checked_end
read_buffer_range-write_buffer_at_example =
    read_buffer_range-write_buffer_at {d = device} {e = overwritten} 0 2 (9 ∷ 9 ∷ 9 ∷ [])
      device-IsValid refl

read_buffer_range_iff_example : (Device.read_buffer_range device 0 1 2 ≡ ok (2 ∷ 3 ∷ [])) ↔ (
    (old : List ℕ) × (Device.read_buffer device 0 ≡ ok old)
    × (1 + 2 ≤ length old)
    × (2 ∷ 3 ∷ [] ≡ take 2 (drop 1 old)))
read_buffer_range_iff_example = read_buffer_range_iff device 0 1 2 (2 ∷ 3 ∷ []) device-IsValid

abbrev cleared : GpuDevice
cleared = (Device.clear_buffer device 0).0

stale_bytes_return_example :
    Device.read_buffer (Device.write_buffer_at cleared 0 3 (9 ∷ [])).0 0
    ≡ ok (take 3 (1 ∷ 2 ∷ 3 ∷ 4 ∷ []) ++ 9 ∷ [])
unfolding run apply Device.allocate_buffer Device.write_buffer Device.write_buffer_at
    Device.clear_buffer Device.read_buffer Buffer.write Buffer.write_at Buffer.clear
    Buffer.checked_end Buffer.contents
stale_bytes_return_example =
    stale_bytes_return {d = device} {e = cleared}
      {f = (Device.write_buffer_at cleared 0 3 (9 ∷ [])).0} 0 3 (9 ∷ []) (1 ∷ 2 ∷ 3 ∷ 4 ∷ [])
      device-IsValid refl (omega arith) refl refl

abbrev released : GpuDevice
released = (Device.release_buffer device 0).0

abbrev first_buffer : GpuBuffer
first_buffer = record { id = 0; storage = 1 ∷ 2 ∷ 3 ∷ 4 ∷ 0 ∷ 0 ∷ 0 ∷ 0 ∷ []; used = 4 }

allocate_buffer_lem_example : Device.allocate_buffer default 5 ≡ (with_fresh default 5, ok 0)
allocate_buffer_lem_example = allocate_buffer_lem default 5 (omega arith)

-- A refused allocation and a write past the end, then stale bytes, a release and unknown buffers.
abbrev device_calls : List Traces.Call
device_calls =
    Traces.allocate_buffer 0
    ∷ Traces.allocate_buffer 4
    ∷ Traces.write_buffer 0 (1 ∷ 2 ∷ 3 ∷ [])
    ∷ Traces.write_buffer_at 0 2 (7 ∷ 8 ∷ 9 ∷ [])
    ∷ Traces.clear_buffer 0
    ∷ Traces.write_buffer_at 0 2 (9 ∷ [])
    ∷ Traces.read_buffer_range 0 1 2
    ∷ Traces.release_buffer 0
    ∷ Traces.read_buffer 0
    ∷ Traces.buffer_count
    ∷ []

device_run-Memory_example : Traces.run default device_calls ≡ Memory.run Memory.empty device_calls
device_run-Memory_example = device_run-Memory device_calls
