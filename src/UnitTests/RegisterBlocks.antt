-- ===== src/UnitTests/RegisterBlocks.antt =====
-- src/registers.rs: its unit tests.
use rust_gpu_driver_lab.Base.{◌≡◌, refl, [], ◌∷◌, replicate, ok, err}
use rust_gpu_driver_lab.Mmio
use rust_gpu_driver_lab.Registers.{
  RegisterBlockError, region_too_small, control, status, command, read_write_readable,
  read_only_readable, read_write_writable, write_only_writable, from_slice, read, write,
  check_register_len,
}
use rust_gpu_driver_lab.UnitTests.{Unwrap, UnwrapCall}
use rust_gpu_driver_lab.UnitTests.Storage.{array, slice_of, word, words_from}

TooSmallRegisterMapIsRejected : Type 0
TooSmallRegisterMapIsRejected = from_slice (slice_of (replicate 2 0)) ≡ err (region_too_small 5 2)

ControlIsReadWrite : Type 0
ControlIsReadWrite =
    let storage = replicate 5 0 in
    Unwrap (from_slice (slice_of storage)) λ registers.
      UnwrapCall (write read_write_writable (array storage) registers control 0x1234)
        λ m _. read read_write_readable m registers control ≡ ok 0x1234

StatusIsReadable : Type 0
StatusIsReadable =
    let storage = 0 ∷ 0xA5A5 ∷ 0 ∷ 0 ∷ 0 ∷ [] in
    Unwrap (from_slice (slice_of storage))
      λ registers. read read_only_readable (array storage) registers status ≡ ok 0xA5A5

CommandIsWritable : Type 0
CommandIsWritable =
    let storage = replicate 5 0 in
    Unwrap (from_slice (slice_of storage)) λ registers.
      UnwrapCall (write write_only_writable (array storage) registers command 42)
        λ m _. word m 2 ≡ 42

RegisterOperationsUseCorrectOffsets : Type 0
RegisterOperationsUseCorrectOffsets =
    let storage = replicate 5 0 in
    Unwrap (from_slice (slice_of storage)) λ registers.
      UnwrapCall (write read_write_writable (array storage) registers control 11) λ m _.
        UnwrapCall (write write_only_writable m registers command 33)
          λ m _. words_from m 0 5 ≡ 11 ∷ 0 ∷ 33 ∷ 0 ∷ 0 ∷ []

LargerRegionIsAccepted : Type 0
LargerRegionIsAccepted =
    let storage = replicate 8 0 in
    Unwrap (from_slice (slice_of storage))
      λ registers. read read_only_readable (array storage) registers status ≡ ok 0

MmioErrorsArePreserved : Type 0
MmioErrorsArePreserved =
    let error = RegisterBlockError.mmio (Mmio.out_of_bounds 5 3) in
    error ≡ RegisterBlockError.mmio (Mmio.out_of_bounds 5 3)

-- Every test passes.
tests_pass :
    TooSmallRegisterMapIsRejected × ControlIsReadWrite × StatusIsReadable × CommandIsWritable
    × RegisterOperationsUseCorrectOffsets × LargerRegionIsAccepted × MmioErrorsArePreserved
unfolding MmioErrorsArePreserved TooSmallRegisterMapIsRejected ControlIsReadWrite StatusIsReadable
    CommandIsWritable RegisterOperationsUseCorrectOffsets LargerRegionIsAccepted from_slice read
    write check_register_len Mmio.from_slice Mmio.read Mmio.write Mmio.check_index
tests_pass = (refl, refl, refl, refl, refl, refl, refl)
