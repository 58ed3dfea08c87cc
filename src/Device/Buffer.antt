-- ===== src/Device/Buffer.antt =====
-- src/lib.rs: one buffer, and what the methods of `GpuDevice` do with it once it is found.
pub mod Views
use rust_gpu_driver_lab.Base.{
  ℕ, List, ◌-◌, max, ltb, length, slice, copy_from_slice, Run, Outcome, ok, err, ◌>>=◌, ◌>>◌, ok_or,
  call, reject_if, checked_add, usize_max,
}

-- The newtype `BufferId(u32)`, as the number that it wraps.
abbrev pub BufferId : Type 0
BufferId = ℕ

pub data DriverError : Type 0 where
  zero_sized_allocation : DriverError
  unknown_buffer : BufferId → DriverError
  buffer_id_exhausted : DriverError
  write_too_large : (capacity requested : ℕ) → DriverError
  range_overflow : (offset length : ℕ) → DriverError
  write_out_of_bounds : (offset length capacity : ℕ) → DriverError
  read_out_of_bounds : (offset length initialized : ℕ) → DriverError

pub record GpuBuffer : Type 0 where
  pub id : BufferId
  pub storage : List ℕ
  pub used : ℕ

abbrev pub capacity : GpuBuffer → ℕ
capacity buffer = length buffer.storage

-- `GpuBuffer::data`: panics if more is used than stored.
unfoldable pub contents : GpuBuffer → Run (List ℕ)
contents buffer = slice buffer.storage 0 buffer.used

-- `GpuDevice::checked_end`.
unfoldable pub checked_end : ℕ → ℕ → Outcome DriverError ℕ
checked_end offset length =
    ok_or (checked_add usize_max offset length) (range_overflow offset length)

-- `write_buffer_at` on the buffer that it found.
unfoldable pub write_at : GpuBuffer → ℕ → List ℕ → Outcome DriverError GpuBuffer
unfolding checked_end
write_at buffer offset bytes = do
  requested ← checked_end offset (length bytes)
  reject_if (ltb (capacity buffer) requested)
      (write_out_of_bounds offset (length bytes) (capacity buffer))
  storage ← call (copy_from_slice buffer.storage offset requested bytes)
  ok (record buffer { storage = storage; used = max buffer.used requested })

-- `write_buffer` on the buffer that it found.
unfoldable pub write : GpuBuffer → List ℕ → Outcome DriverError GpuBuffer
write buffer bytes = do
  reject_if (ltb (capacity buffer) (length bytes))
      (write_too_large (capacity buffer) (length bytes))
  storage ← call (copy_from_slice buffer.storage 0 (length bytes) bytes)
  ok (record buffer { storage = storage; used = length bytes })

-- `read_buffer_range` on the buffer that it found.
unfoldable pub read_range : GpuBuffer → ℕ → ℕ → Outcome DriverError (List ℕ)
unfolding checked_end
read_range buffer offset length = do
  end ← checked_end offset length
  reject_if (ltb buffer.used end) (read_out_of_bounds offset length buffer.used)
  call (slice buffer.storage offset end)

-- `clear_buffer` on the buffer that it found.
unfoldable pub clear : GpuBuffer → GpuBuffer
clear buffer = record buffer { used = 0 }
