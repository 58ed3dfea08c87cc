-- ===== src/Device/Buffer/Views.antt =====
-- src/lib.rs: the bytes that a client sees of one buffer, before and after each operation.
use rust_gpu_driver_lab.Base.{
  ℕ, ◌+◌, ◌-◌, ◌≤◌, ◌<◌, ◌≡◌, List, ◌++◌, arith, refl, ap, ◌∙◌, sym, length, take, drop, max,
  length-append, length-take, length-drop, take-append_ge, take-append_le, drop-append, take-take,
  take_all, drop-take, returns, ok, err, isize_max, usize_max, if◌then◌else◌, leb,
}
use rust_gpu_driver_lab.Device.Buffer.{
  GpuBuffer, capacity, contents, write_at, write, read_range, write_too_large, write_out_of_bounds,
  range_overflow, read_out_of_bounds,
}

-- What holds of every allocated buffer.
pub record IsSound (b : GpuBuffer) : Type 0 where
  pub used_in : b.used ≤ capacity b
  pub nonempty : 0 < capacity b
  pub addressable : capacity b ≤ isize_max

-- The valid bytes.
abbrev pub view : GpuBuffer → List ℕ
view b = take b.used b.storage

pub length-view : (b : GpuBuffer) → IsSound b → length (view b) ≡ b.used
length-view b s = omega (arith, length-take b.used b.storage)

pub contents-view : (b : GpuBuffer) → IsSound b → contents b ≡ returns (view b)
unfolding contents
contents-view b s = ground arith

-- The storage after a write of `bytes` at `offset`.
abbrev pub spliced : List ℕ → ℕ → List ℕ → List ℕ
spliced storage offset bytes =
    take offset storage ++ (bytes ++ drop (offset + length bytes) storage)

abbrev pub written_at : GpuBuffer → ℕ → List ℕ → GpuBuffer
written_at b offset bytes = record b {
  storage = spliced b.storage offset bytes;
  used = max b.used (offset + length bytes);
}

-- On a sound buffer the write either fits and happens, or is refused with the reason.
pub write_at_lem :
    (b : GpuBuffer) (offset : ℕ) (bytes : List ℕ)
    → IsSound b
    → write_at b offset bytes ≡ (
        if leb (offset + length bytes) usize_max
        then if leb (offset + length bytes) (capacity b)
          then ok (written_at b offset bytes)
          else err (write_out_of_bounds offset (length bytes) (capacity b))
        else err (range_overflow offset (length bytes)))
unfolding write_at
write_at_lem b offset bytes s = ground arith

pub length-spliced :
    (storage : List ℕ) (offset : ℕ) (bytes : List ℕ)
    → offset + length bytes ≤ length storage
    → length (spliced storage offset bytes) ≡ length storage
length-spliced storage offset bytes h = omega (
  arith,
  length-append (take offset storage) (bytes ++ drop (offset + length bytes) storage),
  length-append bytes (drop (offset + length bytes) storage),
  length-take offset storage,
  length-drop (offset + length bytes) storage,
)

pub write_at-IsSound :
    (b : GpuBuffer) (offset : ℕ) (bytes : List ℕ)
    → IsSound b
    → offset + length bytes ≤ capacity b
    → IsSound (written_at b offset bytes)
write_at-IsSound b offset bytes s h = omega (arith, length-spliced b.storage offset bytes h)

abbrev pub rewritten : GpuBuffer → List ℕ → GpuBuffer
rewritten b bytes = record b {
  storage = bytes ++ drop (length bytes) b.storage;
  used = length bytes;
}

pub write_lem :
    (b : GpuBuffer) (bytes : List ℕ)
    → write b bytes ≡ (
        if leb (length bytes) (capacity b)
        then ok (rewritten b bytes)
        else err (write_too_large (capacity b) (length bytes)))
unfolding write
write_lem b bytes = ground arith

pub rewritten-IsSound :
    (b : GpuBuffer) (bytes : List ℕ)
    → IsSound b
    → length bytes ≤ capacity b
    → IsSound (rewritten b bytes)
rewritten-IsSound b bytes s h = omega (
  arith,
  length-append bytes (drop (length bytes) b.storage),
  length-drop (length bytes) b.storage,
)

pub view-rewritten : (b : GpuBuffer) (bytes : List ℕ) → view (rewritten b bytes) ≡ bytes
view-rewritten b bytes =
    take-append_le (length bytes) bytes (drop (length bytes) b.storage) (omega arith)
    ∙ take_all (length bytes) bytes refl

-- A write at an offset replaces the bytes in its range and keeps the valid bytes past it. What
-- stands before the offset is read from the storage, valid or not.
pub view-written_at :
    (b : GpuBuffer) (offset : ℕ) (bytes : List ℕ)
    → offset + length bytes ≤ capacity b
    → view (written_at b offset bytes)
      ≡ take offset b.storage ++ (bytes ++ drop (offset + length bytes) (view b))
view-written_at b offset bytes fits =
    let end : ℕ = offset + length bytes in
    let rest = drop end b.storage in
    take-append_ge (max b.used end) (max b.used end - offset) (take offset b.storage)
      (bytes ++ rest) (omega (arith, length-take offset b.storage))
    ∙ ap (λ t. take offset b.storage ++ t)
        (take-append_ge (max b.used end - offset) (b.used - end) bytes rest (omega arith)
          ∙ ap (λ t. bytes ++ t) (sym (drop-take end b.used b.storage)))

-- Inside the valid bytes, a range of the storage is a range of what is valid.
pub range-view :
    (b : GpuBuffer) (offset n : ℕ)
    → offset + n ≤ b.used
    → take n (drop offset b.storage) ≡ take n (drop offset (view b))
range-view b offset n h =
    sym (rw (drop-take offset b.used b.storage) (take-take n (b.used - offset) _ (omega arith)))

pub read_range_lem :
    (b : GpuBuffer) (offset n : ℕ)
    → IsSound b
    → read_range b offset n ≡ (
        if leb (offset + n) usize_max
        then if leb (offset + n) b.used
          then ok (take n (drop offset (view b)))
          else err (read_out_of_bounds offset n b.used)
        else err (range_overflow offset n))
unfolding read_range
read_range_lem b offset n s = ground (arith, range-view b offset n, span)
  where
    span : take (offset + n - offset) (drop offset b.storage) ≡ take n (drop offset b.storage)
    span = ap (λ k. take k (drop offset b.storage)) {x = offset + n - offset} {y = n} (omega arith)

-- The range that a write covered reads as what was written.
pub range-written_at :
    (b : GpuBuffer) (offset : ℕ) (bytes : List ℕ)
    → offset + length bytes ≤ capacity b
    → take (length bytes) (drop offset (view (written_at b offset bytes))) ≡ bytes
range-written_at b offset bytes fits =
    rw
      (
        view-written_at b offset bytes fits,
        drop-append offset (take offset b.storage) _ (omega (arith, length-take offset b.storage)),
        take-append_le (length bytes) bytes (drop (offset + length bytes) (view b)) (omega arith),
      )
      (take_all (length bytes) bytes refl)
