-- ===== src/Device/Allocation.antt =====
-- src/lib.rs: `allocate_buffer` on every branch.
use rust_gpu_driver_lab.Base.{
  ℕ, ◌+◌, ◌≤◌, ◌<◌, ◌≡◌, [], arith, none, replicate, length-replicate, ok, err, panic,
  if◌then◌else◌, ◌==◌, leb, isize_max, u32_max, Option-cases, inl, inr,
}
use rust_gpu_driver_lab.Base.HashMap
use rust_gpu_driver_lab.Base.HashMap.{get-insert, length-insert_new}
use rust_gpu_driver_lab.Device
use rust_gpu_driver_lab.Device.{GpuDevice}
use rust_gpu_driver_lab.Device.Invariant.{IsValid, insert-IsValid}
use rust_gpu_driver_lab.Device.Buffer.{
  BufferId, GpuBuffer, zero_sized_allocation, buffer_id_exhausted, unknown_buffer,
}

abbrev pub fresh : BufferId → ℕ → GpuBuffer
fresh id capacity = record { id = id; storage = replicate capacity 0; used = 0 }

abbrev pub with_fresh : GpuDevice → ℕ → GpuDevice
with_fresh d capacity = record {
  next_id = d.next_id + 1;
  buffers = HashMap.insert d.next_id (fresh d.next_id capacity) d.buffers;
}

-- How `allocate_buffer` ends, with a counter that is a `u32`: the zero size is refused first, then
-- the exhausted counter; a size past the longest vector panics, the counter already advanced; any
-- other succeeds.
pub allocate_buffer_lem :
    (d : GpuDevice) (capacity : ℕ)
    → d.next_id ≤ u32_max
    → Device.allocate_buffer d capacity ≡ (
        if capacity == 0
        then (d, err zero_sized_allocation)
        else if d.next_id == u32_max
        then (d, err buffer_id_exhausted)
        else if leb capacity isize_max
        then (with_fresh d capacity, ok d.next_id)
        else (record d { next_id = d.next_id + 1 }, panic))
unfolding Device.allocate_buffer
allocate_buffer_lem d capacity fits = ground arith

-- The next identifier is not in use.
pub next_id-unused : (d : GpuDevice) → IsValid d → HashMap.get d.next_id d.buffers ≡ none
next_id-unused d v = elim (Option-cases (HashMap.get d.next_id d.buffers)) [
  | inl absent ↦ absent
  | inr (b, there) ↦ absurd (omega (arith, (v.entries d.next_id b there).given_out))
]

pub with_fresh-IsValid :
    (d : GpuDevice) (capacity : ℕ)
    → IsValid d
    → d.next_id < u32_max
    → 0 < capacity
    → capacity ≤ isize_max
    → IsValid (with_fresh d capacity)
with_fresh-IsValid d capacity v room pos fits =
    insert-IsValid (d.next_id + 1) d.next_id (fresh d.next_id capacity) d v (omega arith)
      (omega arith) (omega (arith, length-replicate {A = ℕ} capacity 0))

read_buffer-with_fresh :
    (d : GpuDevice) (j : BufferId) (capacity : ℕ)
    → Device.read_buffer (with_fresh d capacity) j
      ≡ (if d.next_id == j then ok [] else Device.read_buffer d j)
unfolding Device.read_buffer Device.Buffer.contents
read_buffer-with_fresh d j capacity =
    ground (arith, get-insert d.next_id j (fresh d.next_id capacity) d.buffers)

read_buffer-unused :
    (d : GpuDevice) (id : BufferId)
    → HashMap.get id d.buffers ≡ none
    → Device.read_buffer d id ≡ err (unknown_buffer id)
unfolding Device.read_buffer
read_buffer-unused d id h = rw h

-- On a valid device a successful allocation hands out an identifier that was unknown before; its
-- buffer reads as empty, no other buffer changes, and one more is counted.
pub allocate_buffer-fresh :
    (d : GpuDevice) {e : GpuDevice} {id : BufferId} (j : BufferId) (capacity : ℕ)
    → IsValid d
    → Device.allocate_buffer d capacity ≡ (e, ok id)
    → (Device.read_buffer d id ≡ err (unknown_buffer id))
      × (Device.read_buffer e j ≡ (if id == j then ok [] else Device.read_buffer d j))
      × (Device.buffer_count e ≡ Device.buffer_count d + 1)
unfolding Device.buffer_count
allocate_buffer-fresh d {e} {id} j capacity v h =
    let lem = allocate_buffer_lem d capacity v.ids_fit in
    let named : id ≡ d.next_id = ground (arith, lem) in
    let result : e ≡ with_fresh d capacity = ground (arith, lem) in
    let unused = next_id-unused d v in
    (
      rw named (read_buffer-unused d d.next_id unused),
      rw (named, result) (read_buffer-with_fresh d j capacity),
      rw result (length-insert_new d.next_id (fresh d.next_id capacity) d.buffers unused),
    )

-- Advancing the counter alone keeps the invariant.
pub advanced-IsValid :
    (d : GpuDevice)
    → IsValid d
    → d.next_id < u32_max
    → IsValid (record d { next_id = d.next_id + 1 })
advanced-IsValid d v room = record {
  entries = λ id b there.
      let entry = v.entries id b there in
      record { same_id = entry.same_id; given_out = ground arith; sound = entry.sound };
  ids_fit = omega arith;
  keys_unique = v.keys_unique;
}
