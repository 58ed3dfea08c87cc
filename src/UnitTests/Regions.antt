-- ===== src/UnitTests/Regions.antt =====
-- src/mmio.rs: its unit tests.
use rust_gpu_driver_lab.Base.{◌≡◌, refl, [], ◌∷◌, replicate, ok, err}
use rust_gpu_driver_lab.Mmio.{
  empty_region, null_base, misaligned_base, out_of_bounds, register_alignment, from_slice,
  from_raw_parts, read, write, check_index,
}
use rust_gpu_driver_lab.UnitTests.{Unwrap, UnwrapCall}
use rust_gpu_driver_lab.UnitTests.Storage.{base, array, slice_of, word, words_from}

EmptySliceIsRejected : Type 0
EmptySliceIsRejected = from_slice (slice_of []) ≡ err empty_region

VolatileReadAndWriteRoundTrip : Type 0
VolatileReadAndWriteRoundTrip =
    let registers = replicate 3 0 in
    Unwrap (from_slice (slice_of registers)) λ region.
      UnwrapCall (write (array registers) region 1 0xA5A55A5A)
        λ m _. (read m region 1 ≡ ok 0xA5A55A5A) × (word m 1 ≡ 0xA5A55A5A)

OutOfBoundsWritePreservesRegisters : Type 0
OutOfBoundsWritePreservesRegisters =
    let registers = 11 ∷ 22 ∷ [] in
    Unwrap (from_slice (slice_of registers)) λ region.
      let (m, result) = write (array registers) region 2 99 in
      (result ≡ err (out_of_bounds 2 2)) × (words_from m 0 2 ≡ 11 ∷ 22 ∷ [])

NullRawBaseIsRejected : Type 0
NullRawBaseIsRejected = from_raw_parts 0 1 ≡ err null_base

-- One byte past an aligned address.
MisalignedRawBaseIsRejected : Type 0
MisalignedRawBaseIsRejected = from_raw_parts 65 1 ≡ err (misaligned_base 65 register_alignment)

ValidRawRegionSupportsAccess : Type 0
ValidRawRegionSupportsAccess = Unwrap (from_raw_parts base 2) λ region.
    UnwrapCall (write (array (replicate 2 0)) region 0 42)
      λ m _. (read m region 0 ≡ ok 42) × (word m 0 ≡ 42)

EmptyRawRegionIsRejected : Type 0
EmptyRawRegionIsRejected = from_raw_parts base 0 ≡ err empty_region

OutOfBoundRead : Type 0
OutOfBoundRead = Unwrap (from_raw_parts base 2) λ region.
    UnwrapCall (write (array (replicate 2 0)) region 1 0xA5A55A5A)
      λ m _. read m region 2 ≡ err (out_of_bounds 2 2)

OutOfBoundWrite : Type 0
OutOfBoundWrite =
    Unwrap (from_raw_parts base 2)
      λ region. (write (array (replicate 2 0)) region 2 0xA5A55A5A).1 ≡ err (out_of_bounds 2 2)

RegistersAreIndependent : Type 0
RegistersAreIndependent =
    let registers = replicate 3 0 in
    Unwrap (from_slice (slice_of registers)) λ region.
      UnwrapCall (write (array registers) region 0 10) λ m _.
        UnwrapCall (write m region 2 30)
          λ m _. (read m region 0 ≡ ok 10) × (read m region 1 ≡ ok 0) × (read m region 2 ≡ ok 30)

-- Every test passes.
tests_pass :
    EmptySliceIsRejected × VolatileReadAndWriteRoundTrip × OutOfBoundsWritePreservesRegisters
    × NullRawBaseIsRejected × MisalignedRawBaseIsRejected × ValidRawRegionSupportsAccess
    × EmptyRawRegionIsRejected × OutOfBoundRead × OutOfBoundWrite × RegistersAreIndependent
unfolding EmptySliceIsRejected VolatileReadAndWriteRoundTrip OutOfBoundsWritePreservesRegisters
    NullRawBaseIsRejected MisalignedRawBaseIsRejected ValidRawRegionSupportsAccess
    EmptyRawRegionIsRejected OutOfBoundRead OutOfBoundWrite RegistersAreIndependent from_slice
    from_raw_parts read write check_index
tests_pass = (
  refl,
  (refl, refl),
  (refl, refl),
  refl,
  refl,
  (refl, refl),
  refl,
  refl,
  refl,
  (refl, refl, refl),
)
