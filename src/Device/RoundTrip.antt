-- ===== src/Device/RoundTrip.antt =====
-- src/lib.rs: what a client reads after it wrote, cleared or released a buffer.
use rust_gpu_driver_lab.Base.{
  ℕ, ◌+◌, ◌≤◌, ◌≡◌, List, ◌++◌, arith, some, length, take, drop, ok, refl, if◌then◌else◌, ◌==◌, inl,
  inr, Option-cases, take-take,
}
use rust_gpu_driver_lab.Base.HashMap
use rust_gpu_driver_lab.Base.HashMap.{get-insert, get-remove}
use rust_gpu_driver_lab.Device
use rust_gpu_driver_lab.Device.{GpuDevice, store}
use rust_gpu_driver_lab.Device.Contents.{
  write_buffer_found, write_buffer_at_found, read_buffer_found, read_buffer_range_found,
  write_buffer_absent, write_buffer_at_absent,
}
use rust_gpu_driver_lab.Device.Invariant.{IsValid, found-IsSound}
use rust_gpu_driver_lab.Device.Buffer
use rust_gpu_driver_lab.Device.Buffer.{BufferId, GpuBuffer, DriverError, unknown_buffer}
use rust_gpu_driver_lab.Device.Buffer.Views.{
  IsSound, view, contents-view, length-view, rewritten, written_at, view-rewritten, view-written_at,
  range-written_at, rewritten-IsSound, write_at-IsSound,
}

-- Reading after an entry was replaced by a sound one.
pub read_buffer-store :
    (d : GpuDevice) (id j : BufferId) (c : GpuBuffer)
    → IsSound c
    → Device.read_buffer (store d id c) j
      ≡ (if id == j then ok (view c) else Device.read_buffer d j)
unfolding Device.read_buffer
read_buffer-store d id j c s = ground (arith, get-insert id j c d.buffers, contents-view c s)

module _ {d e : GpuDevice} (id : BufferId) (bytes : List ℕ) (v : IsValid d) where
  -- A write that succeeds found its buffer and fits it.
  pub write_buffer-ok :
      Device.write_buffer d id bytes ≡ (e, ok tt)
      → (b : GpuBuffer) × (HashMap.get id d.buffers ≡ some b)
        × (length bytes ≤ Buffer.capacity b)
        × (e ≡ store d id (rewritten b bytes))
  write_buffer-ok h = elim (Option-cases (HashMap.get id d.buffers)) [
    | inl absent ↦ ground (arith, write_buffer_absent d id absent bytes)
    | inr (b, there) ↦
        let lem = write_buffer_found d id there bytes in
        (b, there, ground (arith, lem), ground (arith, lem))
  ]

  pub write_buffer_at-ok :
      (offset : ℕ)
      → Device.write_buffer_at d id offset bytes ≡ (e, ok tt)
      → (b : GpuBuffer) × (HashMap.get id d.buffers ≡ some b)
        × (offset + length bytes ≤ Buffer.capacity b)
        × (e ≡ store d id (written_at b offset bytes))
  write_buffer_at-ok offset h = elim (Option-cases (HashMap.get id d.buffers)) [
    | inl absent ↦ ground (arith, write_buffer_at_absent d id absent offset bytes)
    | inr (b, there) ↦
        let lem = write_buffer_at_found d id there offset bytes (found-IsSound id v there) in
        (b, there, ground (arith, lem), ground (arith, lem))
  ]

-- On a valid device a successful `write_buffer` makes the buffer read as the bytes written, and
-- changes no other.
pub read_buffer-write_buffer :
    {d e : GpuDevice} (id j : BufferId) (bytes : List ℕ)
    → IsValid d
    → Device.write_buffer d id bytes ≡ (e, ok tt)
    → Device.read_buffer e j ≡ (if id == j then ok bytes else Device.read_buffer d j)
read_buffer-write_buffer {d} id j bytes v h =
    let (b, there, fits, stored) = write_buffer-ok id bytes v h in
    rw
      (
        stored,
        read_buffer-store d id j (rewritten b bytes)
            (rewritten-IsSound b bytes (found-IsSound id v there) fits),
        view-rewritten,
      )
      refl

-- On a valid device, after a successful `write_buffer_at`, the range that was written reads as the
-- bytes written.
pub read_buffer_range-write_buffer_at :
    {d e : GpuDevice} (id : BufferId) (offset : ℕ) (bytes : List ℕ)
    → IsValid d
    → Device.write_buffer_at d id offset bytes ≡ (e, ok tt)
    → Device.read_buffer_range e id offset (length bytes) ≡ ok bytes
read_buffer_range-write_buffer_at {d} {e} id offset bytes v h =
    let (b, there, fits, stored) = write_buffer_at-ok id bytes v offset h in
    let s = found-IsSound id v there in
    let c = written_at b offset bytes in
    let there' : HashMap.get id (store d id c).buffers ≡ some c =
      ground (arith, get-insert id id c d.buffers) in
    rw stored (
      ground (
        arith,
        read_buffer_range_found (store d id c) id there' offset (length bytes)
            (write_at-IsSound b offset bytes s fits),
        range-written_at b offset bytes fits,
      ))

-- On a valid device a successful `write_buffer_at` that starts inside the valid bytes, or at their
-- end, replaces the bytes in its range, keeps those before and after it, and changes no other
-- buffer.
pub read_buffer-write_buffer_at :
    {d e : GpuDevice} (id j : BufferId) (offset : ℕ) (bytes old : List ℕ)
    → IsValid d
    → Device.read_buffer d id ≡ ok old
    → offset ≤ length old
    → Device.write_buffer_at d id offset bytes ≡ (e, ok tt)
    → Device.read_buffer e j ≡ (
        if id == j
        then ok (take offset old ++ (bytes ++ drop (offset + length bytes) old))
        else Device.read_buffer d j)
read_buffer-write_buffer_at {d} id j offset bytes old v before inside h =
    let (b, there, fits, stored) = write_buffer_at-ok id bytes v offset h in
    let s = found-IsSound id v there in
    let same : old ≡ view b = ground (arith, read_buffer_found d id there s) in
    let len = length-view b s in
    rw
      (
        stored,
        read_buffer-store d id j (written_at b offset bytes)
            (write_at-IsSound b offset bytes s fits),
        view-written_at b offset bytes fits,
        same,
        take-take offset b.used b.storage (rw (← len, ← same) inside),
      )
      refl
