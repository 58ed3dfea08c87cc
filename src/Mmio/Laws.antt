-- ===== src/Mmio/Laws.antt =====
-- src/mmio.rs: which regions are accepted, bounds, and reads after writes.
use rust_gpu_driver_lab.Base.{
  ℕ, ◌+◌, ◌*◌, ◌%◌, ◌≤◌, ◌<◌, ◌≡◌, ◌≢◌, ◌↔◌, ◌⊎◌, arith, ltb, ◌==◌, if◌then◌else◌, ok, err,
}
use rust_gpu_driver_lab.Mmio
use rust_gpu_driver_lab.Mmio.{
  Memory, Slice, MmioRegion, MmioError, register_alignment, register_address, null_base,
  empty_region, misaligned_base, out_of_bounds,
}

-- A raw base is accepted exactly if it is not null, aligned and the region is not empty; an error
-- names the first of null base, empty region, misalignment that applies.
pub from_raw_parts_lem :
    (base count : ℕ)
    → Mmio.from_raw_parts base count ≡ (
        if base == 0
        then err null_base
        else if count == 0
        then err empty_region
        else if base % register_alignment == 0
        then ok (record { base = base; register_count = count })
        else err (misaligned_base base register_alignment))
unfolding Mmio.from_raw_parts
from_raw_parts_lem base count = ground arith

-- A borrowed slice is accepted exactly if it is not empty: a reference is never null.
pub from_slice_iff :
    (s : Slice) (r : MmioRegion)
    → s.address ≢ 0
    → (Mmio.from_slice s ≡ ok r)
      ↔ ((s.count ≢ 0) × (r ≡ record { base = s.address; register_count = s.count }))
unfolding Mmio.from_slice
from_slice_iff s r h = ground arith

-- Reading succeeds exactly inside the region.
pub read_lem :
    (m : Memory) (r : MmioRegion) (i : ℕ)
    → Mmio.read m r i ≡ (
        if ltb i r.register_count
        then ok (m (register_address r i))
        else err (out_of_bounds i r.register_count))
unfolding Mmio.read
read_lem m r i = ground arith

pub write_lem :
    (m : Memory) (r : MmioRegion) (i v : ℕ)
    → Mmio.write m r i v ≡ (
        if ltb i r.register_count
        then (Mmio.stored m (register_address r i) v, ok tt)
        else (m, err (out_of_bounds i r.register_count)))
unfolding Mmio.write
write_lem m r i v = ground arith

-- After a successful write the register reads as the value, and every other register as before.
pub read-write :
    (m m' : Memory) (r : MmioRegion) (i j v : ℕ)
    → Mmio.write m r i v ≡ (m', ok tt)
    → Mmio.read m' r j ≡ (if i == j then ok v else Mmio.read m r j)
read-write m m' r i j v h =
    let done = write_lem m r i v in
    let inside : i < r.register_count = ground (arith, done) in
    let result : m' ≡ Mmio.stored m (register_address r i) v = ground (arith, done) in
    rw result
      (ground (arith, read_lem (Mmio.stored m (register_address r i) v) r j, read_lem m r j))

-- A write changes no memory outside the region, and none at all if its index is out of bounds.
pub write_outside :
    (m : Memory) (r : MmioRegion) (i v address : ℕ)
    → (address < r.base)
      ⊎ (r.base + register_alignment * r.register_count ≤ address)
      ⊎ (r.register_count ≤ i)
    → (Mmio.write m r i v).0 address ≡ m address
unfolding Mmio.write
write_outside m r i v address h = ground arith
