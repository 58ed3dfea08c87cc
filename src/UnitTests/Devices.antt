-- ===== src/UnitTests/Devices.antt =====
-- src/lib.rs: its unit tests.
use rust_gpu_driver_lab.Base.{◌≡◌, ◌≢◌, refl, arith, [], ◌∷◌, err, returns, u32_max, usize_max}
use rust_gpu_driver_lab.Device
use rust_gpu_driver_lab.Device.{GpuDevice, default}
use rust_gpu_driver_lab.Device.Buffer
use rust_gpu_driver_lab.Device.Buffer.{
  zero_sized_allocation, unknown_buffer, buffer_id_exhausted, write_too_large, range_overflow,
  write_out_of_bounds, read_out_of_bounds,
}
use rust_gpu_driver_lab.UnitTests.{Unwrap, UnwrapCall}

ExhaustedBufferIdsAreRejected : Type 0
ExhaustedBufferIdsAreRejected =
    let (device, result) = Device.allocate_buffer (record default { next_id = u32_max }) 1 in
    (result ≡ err buffer_id_exhausted) × (Device.buffer_count device ≡ 0)

AllocateWriteAndReadBuffer : Type 0
AllocateWriteAndReadBuffer = UnwrapCall (Device.allocate_buffer default 8) λ device id.
    (Device.buffer_count device ≡ 1)
    × UnwrapCall (Device.write_buffer device id (10 ∷ 20 ∷ 30 ∷ []))
        λ device _. Unwrap (Device.read_buffer device id) λ bytes. bytes ≡ 10 ∷ 20 ∷ 30 ∷ []

ZeroSizedAllocationIsRejected : Type 0
ZeroSizedAllocationIsRejected =
    let (device, result) = Device.allocate_buffer default 0 in
    (result ≡ err zero_sized_allocation) × (Device.buffer_count device ≡ 0)

OversizedWriteDoesNotModifyExistingData : Type 0
OversizedWriteDoesNotModifyExistingData = UnwrapCall (Device.allocate_buffer default 3) λ device id.
    UnwrapCall (Device.write_buffer device id (1 ∷ 2 ∷ [])) λ device _.
      let (device, result) = Device.write_buffer device id (7 ∷ 8 ∷ 9 ∷ 10 ∷ []) in
      (result ≡ err (write_too_large 3 4))
      × Unwrap (Device.read_buffer device id) λ bytes. bytes ≡ 1 ∷ 2 ∷ []

ReleasingTransfersBufferOwnership : Type 0
ReleasingTransfersBufferOwnership = UnwrapCall (Device.allocate_buffer default 4) λ device id.
    UnwrapCall (Device.write_buffer device id (42 ∷ 43 ∷ [])) λ device _.
      UnwrapCall (Device.release_buffer device id) λ device released.
        (released.id ≡ id)
        × (Buffer.capacity released ≡ 4)
        × (Buffer.contents released ≡ returns (42 ∷ 43 ∷ []))
        × (Device.buffer_count device ≡ 0)
        × (Device.read_buffer device id ≡ err (unknown_buffer id))

AllocationsReceiveDifferentIds : Type 0
AllocationsReceiveDifferentIds = UnwrapCall (Device.allocate_buffer default 4) λ device id1.
    UnwrapCall (Device.allocate_buffer device 4)
      λ device id2. (id1 ≢ id2) × (Device.buffer_count device ≡ 2)

WritesAndReadsAtAnOffset : Type 0
WritesAndReadsAtAnOffset = UnwrapCall (Device.allocate_buffer default 8) λ device id.
    UnwrapCall (Device.write_buffer_at device id 3 (10 ∷ 20 ∷ [])) λ device _.
      (Unwrap (Device.read_buffer_range device id 3 2) λ bytes. bytes ≡ 10 ∷ 20 ∷ [])
      × Unwrap (Device.read_buffer device id) λ bytes. bytes ≡ 0 ∷ 0 ∷ 0 ∷ 10 ∷ 20 ∷ []

DoubleWriteValidCapacity : Type 0
DoubleWriteValidCapacity = UnwrapCall (Device.allocate_buffer default 2) λ device id.
    UnwrapCall (Device.write_buffer device id (1 ∷ 2 ∷ [])) λ device _.
      UnwrapCall (Device.write_buffer_at device id 0 (3 ∷ 4 ∷ []))
        λ device _. Unwrap (Device.read_buffer device id) λ bytes. bytes ≡ 3 ∷ 4 ∷ []

DoubleWriteInvalidCapacity : Type 0
DoubleWriteInvalidCapacity = UnwrapCall (Device.allocate_buffer default 5) λ device id.
    UnwrapCall (Device.write_buffer_at device id 3 (10 ∷ 20 ∷ [])) λ device _.
      let (device, result) = Device.write_buffer_at device id 3 (1 ∷ 2 ∷ 3 ∷ []) in
      (result ≡ err (write_out_of_bounds 3 3 5))
      × Unwrap (Device.read_buffer device id) λ bytes. bytes ≡ 0 ∷ 0 ∷ 0 ∷ 10 ∷ 20 ∷ []

WritingBeforeCurrentEndDoesNotShrinkUsedLength : Type 0
WritingBeforeCurrentEndDoesNotShrinkUsedLength =
    UnwrapCall (Device.allocate_buffer default 8) λ device id.
      UnwrapCall (Device.write_buffer_at device id 4 (40 ∷ 50 ∷ [])) λ device _.
        UnwrapCall (Device.write_buffer_at device id 1 (10 ∷ [])) λ device _.
          Unwrap (Device.read_buffer device id) λ bytes. bytes ≡ 0 ∷ 10 ∷ 0 ∷ 0 ∷ 40 ∷ 50 ∷ []

OverflowingRangeIsRejected : Type 0
OverflowingRangeIsRejected = UnwrapCall (Device.allocate_buffer default 8) λ device id.
    (Device.write_buffer_at device id usize_max (1 ∷ 2 ∷ [])).1 ≡ err (range_overflow usize_max 2)

OutOfBoundsWritePreservesExistingData : Type 0
OutOfBoundsWritePreservesExistingData = UnwrapCall (Device.allocate_buffer default 4) λ device id.
    UnwrapCall (Device.write_buffer device id (1 ∷ 2 ∷ 3 ∷ [])) λ device _.
      let (device, result) = Device.write_buffer_at device id 3 (8 ∷ 9 ∷ []) in
      (result ≡ err (write_out_of_bounds 3 2 4))
      × Unwrap (Device.read_buffer device id) λ bytes. bytes ≡ 1 ∷ 2 ∷ 3 ∷ []

ReadingUninitializedRangeIsRejected : Type 0
ReadingUninitializedRangeIsRejected = UnwrapCall (Device.allocate_buffer default 8) λ device id.
    UnwrapCall (Device.write_buffer device id (1 ∷ 2 ∷ 3 ∷ []))
      λ device _. Device.read_buffer_range device id 2 2 ≡ err (read_out_of_bounds 2 2 3)

ClearingPreservesCapacityButRemovesValidData : Type 0
ClearingPreservesCapacityButRemovesValidData =
    UnwrapCall (Device.allocate_buffer default 8) λ device id.
      UnwrapCall (Device.write_buffer device id (1 ∷ 2 ∷ 3 ∷ [])) λ device _.
        UnwrapCall (Device.clear_buffer device id) λ device _.
          (Unwrap (Device.read_buffer device id) λ bytes. bytes ≡ [])
          × (Device.buffer_count device ≡ 1)
          × UnwrapCall (Device.release_buffer device id)
              λ device released. Buffer.capacity released ≡ 8

-- Every test passes.
tests_pass :
    ExhaustedBufferIdsAreRejected × AllocateWriteAndReadBuffer × ZeroSizedAllocationIsRejected
    × OversizedWriteDoesNotModifyExistingData × ReleasingTransfersBufferOwnership
    × AllocationsReceiveDifferentIds × WritesAndReadsAtAnOffset × DoubleWriteValidCapacity
    × DoubleWriteInvalidCapacity × WritingBeforeCurrentEndDoesNotShrinkUsedLength
    × OverflowingRangeIsRejected × OutOfBoundsWritePreservesExistingData
    × ReadingUninitializedRangeIsRejected × ClearingPreservesCapacityButRemovesValidData
unfolding ExhaustedBufferIdsAreRejected AllocateWriteAndReadBuffer ZeroSizedAllocationIsRejected
    OversizedWriteDoesNotModifyExistingData ReleasingTransfersBufferOwnership
    AllocationsReceiveDifferentIds WritesAndReadsAtAnOffset DoubleWriteValidCapacity
    DoubleWriteInvalidCapacity WritingBeforeCurrentEndDoesNotShrinkUsedLength
    OverflowingRangeIsRejected OutOfBoundsWritePreservesExistingData
    ReadingUninitializedRangeIsRejected ClearingPreservesCapacityButRemovesValidData
    Device.allocate_buffer Device.write_buffer Device.write_buffer_at Device.read_buffer
    Device.read_buffer_range Device.clear_buffer Device.release_buffer Buffer.write Buffer.write_at
    Buffer.read_range Buffer.clear Buffer.contents Buffer.checked_end Device.buffer_count
tests_pass = (
  (refl, refl),
  (refl, refl),
  (refl, refl),
  (refl, refl),
  (refl, refl, refl, refl, refl),
  (ground arith, refl),
  (refl, refl),
  refl,
  (refl, refl),
  refl,
  refl,
  (refl, refl),
  refl,
  (refl, refl, refl),
)
