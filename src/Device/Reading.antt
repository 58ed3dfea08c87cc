-- ===== src/Device/Reading.antt =====
-- src/lib.rs: ranges, cleared buffers and released buffers.
use rust_gpu_driver_lab.Base.{
  ℕ, ◌+◌, ◌≤◌, ◌≡◌, ◌↔◌, List, ◌++◌, [], arith, some, length, take, drop, ok, err, refl,
  if◌then◌else◌, ◌==◌, inl, inr, Option-cases, take-take, drop-nil, ==_refl,
}
use mathlib.Core.List.{append-nil}
use rust_gpu_driver_lab.Base.HashMap
use rust_gpu_driver_lab.Base.HashMap.{get-insert, get-remove, length-remove, length-insert_there}
use rust_gpu_driver_lab.Device
use rust_gpu_driver_lab.Device.{GpuDevice, store}
use rust_gpu_driver_lab.Device.Contents.{
  read_buffer_found, read_buffer_range_found, write_buffer_at_found, read_buffer_absent,
  read_buffer_range_absent, clear_buffer_found, clear_buffer_absent,
}
use rust_gpu_driver_lab.Device.RoundTrip.{read_buffer-store}
use rust_gpu_driver_lab.Device.Invariant.{IsValid, found-IsSound}
use rust_gpu_driver_lab.Device.Buffer
use rust_gpu_driver_lab.Device.Buffer.{BufferId, GpuBuffer, DriverError, unknown_buffer}
use rust_gpu_driver_lab.Device.Buffer.Views.{
  IsSound, view, length-view, written_at, view-written_at, write_at-IsSound,
}

-- On a valid device a range reads successfully exactly when it lies in the valid bytes, and is
-- that part of them.
pub read_buffer_range_iff :
    (d : GpuDevice) (id : BufferId) (offset n : ℕ) (xs : List ℕ)
    → IsValid d
    → (Device.read_buffer_range d id offset n ≡ ok xs) ↔ (
        (old : List ℕ) × (Device.read_buffer d id ≡ ok old)
        × (offset + n ≤ length old)
        × (xs ≡ take n (drop offset old)))
read_buffer_range_iff d id offset n xs v = elim (Option-cases (HashMap.get id d.buffers)) [
  | inl absent ↦
      ground (arith, read_buffer_range_absent d id absent offset n, read_buffer_absent d id absent)
  | inr (b, there) ↦
      let s = found-IsSound id v there in
      let range = read_buffer_range_found d id there offset n s in
      let whole = read_buffer_found d id there s in
      let len = length-view b s in
      (
        λ h. (view b, whole, ground (arith, range, len), ground (arith, range, len)),
        λ (old, e, fits, cut). ground (arith, range, whole, len),
      )
]

clear-IsSound : {b : GpuBuffer} → IsSound b → IsSound (Buffer.clear b)
unfolding Buffer.clear
clear-IsSound s = omega arith

-- A clear that succeeds found its buffer.
clear_buffer-ok :
    (d : GpuDevice) {e : GpuDevice} (id : BufferId)
    → Device.clear_buffer d id ≡ (e, ok tt)
    → (b : GpuBuffer) × (HashMap.get id d.buffers ≡ some b) × (e ≡ store d id (Buffer.clear b))
clear_buffer-ok d id h = elim (Option-cases (HashMap.get id d.buffers)) [
  | inl absent ↦ ground (arith, clear_buffer_absent d id absent)
  | inr (b, there) ↦ (b, there, ground (arith, clear_buffer_found d id there))
]

-- On a valid device a buffer that was cleared reads as empty, no other buffer changes, and as many
-- buffers are counted.
pub read_buffer-clear_buffer :
    {d e : GpuDevice} (id j : BufferId)
    → IsValid d
    → Device.clear_buffer d id ≡ (e, ok tt)
    → (Device.read_buffer e j ≡ (if id == j then ok [] else Device.read_buffer d j))
      × (Device.buffer_count e ≡ Device.buffer_count d)
unfolding Device.buffer_count Buffer.clear
read_buffer-clear_buffer {d} id j v h =
    let (b, there, stored) = clear_buffer-ok d id h in
    (
      rw (
        stored,
        read_buffer-store d id j (Buffer.clear b) (clear-IsSound (found-IsSound id v there)),
      ),
      rw stored (length-insert_there id (Buffer.clear b) b d.buffers there),
    )

read_buffer-remove :
    (d : GpuDevice) (id j : BufferId)
    → Device.read_buffer (record d { buffers = HashMap.remove id d.buffers }) j
      ≡ (if id == j then err (unknown_buffer id) else Device.read_buffer d j)
unfolding Device.read_buffer
read_buffer-remove d id j = ground (arith, get-remove id j d.buffers)

release_buffer-ok :
    (d : GpuDevice) {e : GpuDevice} (id : BufferId) {b : GpuBuffer}
    → Device.release_buffer d id ≡ (e, ok b)
    → (HashMap.get id d.buffers ≡ some b) × (e ≡ record d { buffers = HashMap.remove id d.buffers })
unfolding Device.release_buffer
release_buffer-ok d id h = ground arith

-- On a valid device a released buffer is handed over with its identifier and its bytes; afterwards
-- it is unknown, one buffer less is counted, and no other buffer changes.
pub read_buffer-release_buffer :
    {d e : GpuDevice} (id j : BufferId) {b : GpuBuffer}
    → IsValid d
    → Device.release_buffer d id ≡ (e, ok b)
    → (b.id ≡ id)
      × (Device.read_buffer d id ≡ ok (view b))
      × (Device.read_buffer e j
          ≡ (if id == j then err (unknown_buffer id) else Device.read_buffer d j))
      × (Device.buffer_count e + 1 ≡ Device.buffer_count d)
unfolding Device.buffer_count
read_buffer-release_buffer {d} id j {b} v h =
    let (there, removed) = release_buffer-ok d id h in
    (
      (v.entries id b there).same_id,
      read_buffer_found d id there (found-IsSound id v there),
      rw removed (read_buffer-remove d id j),
      rw removed (length-remove id b d.buffers v.keys_unique there),
    )

get-store :
    (d : GpuDevice) (id : BufferId) (b : GpuBuffer) → HashMap.get id (store d id b).buffers ≡ some b
get-store d id b = ground (arith, get-insert id id b d.buffers)

view-written_at-clear :
    (b : GpuBuffer) (offset : ℕ) (bytes : List ℕ)
    → offset + length bytes ≤ Buffer.capacity b
    → offset ≤ b.used
    → view (written_at (Buffer.clear b) offset bytes) ≡ take offset (view b) ++ bytes
unfolding Buffer.clear
view-written_at-clear b offset bytes fits inside =
    rw
      (
        view-written_at (Buffer.clear b) offset bytes fits,
        drop-nil,
        append-nil,
        take-take offset b.used b.storage inside,
      )
      refl

-- On a valid device, bytes that were valid before a clear become valid again by a successful write
-- at an offset past them, at most the former number of valid bytes: the write makes everything
-- before its offset readable, and a clear erases nothing.
pub stale_bytes_return :
    {d e f : GpuDevice} (id : BufferId) (offset : ℕ) (bytes old : List ℕ)
    → IsValid d
    → Device.read_buffer d id ≡ ok old
    → offset ≤ length old
    → Device.clear_buffer d id ≡ (e, ok tt)
    → Device.write_buffer_at e id offset bytes ≡ (f, ok tt)
    → Device.read_buffer f id ≡ ok (take offset old ++ bytes)
unfolding Buffer.clear
stale_bytes_return {d} {e} {f} id offset bytes old v before inside cleared written =
    let (b, there, stored) = clear_buffer-ok d id cleared in
    let s = found-IsSound id v there in
    let c = Buffer.clear b in
    let lem =
      write_buffer_at_found (store d id c) id (get-store d id c) offset bytes (clear-IsSound s) in
    let again : Device.write_buffer_at (store d id c) id offset bytes ≡ (f, ok tt) =
      rw stored at written in
    let fits : offset + length bytes ≤ Buffer.capacity c = ground (arith, lem) in
    let result : f ≡ store (store d id c) id (written_at c offset bytes) = ground (arith, lem) in
    let same : old ≡ view b = ground (arith, read_buffer_found d id there s) in
    rw
      (
        result,
        read_buffer-store (store d id c) id id (written_at c offset bytes)
            (write_at-IsSound c offset bytes (clear-IsSound s) fits),
        ==_refl id,
        view-written_at-clear b offset bytes fits (rw (← length-view b s, ← same) inside),
        same,
      )
      refl
