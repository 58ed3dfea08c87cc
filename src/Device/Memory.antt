-- ===== src/Device/Memory.antt =====
-- What a device promises, without lists or maps: each identifier that is handed out names an address
-- space of its own, of which the first `valid` cells can be read.
pub mod Cells
pub mod Refines
pub mod Steps
use rust_gpu_driver_lab.Base.{
  ℕ, zero, suc, ◌+◌, ◌-◌, max, List, [], ◌∷◌, length, Option, none, some, leb, ◌==◌, if◌then◌else◌,
  returns, Outcome, ok, err, panic, u32_max, usize_max, isize_max,
}
use rust_gpu_driver_lab.Device.Buffer.{
  BufferId, DriverError, zero_sized_allocation, unknown_buffer, buffer_id_exhausted,
  write_too_large, range_overflow, write_out_of_bounds, read_out_of_bounds,
}
use rust_gpu_driver_lab.Device.Traces.{
  Call, allocate_buffer, write_buffer, write_buffer_at, clear_buffer, release_buffer, read_buffer,
  read_buffer_range, initialized_len, buffer_count, Released, Reply, allocated, done, released,
  bytes, measured, counted,
}

pub record Space : Type 0 where
  pub size : ℕ
  pub valid : ℕ
  pub cell : ℕ → ℕ

pub record Memory : Type 0 where
  pub issued : ℕ
  pub live : ℕ
  pub space : BufferId → Option Space

abbrev pub empty : Memory
empty = record { issued = 0; live = 0; space = λ id. none }

abbrev pub poke : (ℕ → ℕ) → ℕ → ℕ → ℕ → ℕ
poke cell at x = λ i. if at == i then x else cell i

-- Writing bytes one after the other.
abbrev pub copy : (ℕ → ℕ) → ℕ → List ℕ → ℕ → ℕ
copy cell at [] = cell
copy cell at (x ∷ xs) = poke (copy cell (suc at) xs) at x

-- Reading bytes one after the other.
abbrev pub window : (ℕ → ℕ) → ℕ → ℕ → List ℕ
window cell at zero = []
window cell at (suc n) = cell at ∷ window cell (suc at) n

abbrev pub with_space : Memory → BufferId → Option Space → BufferId → Option Space
with_space m id s = λ j. if id == j then s else m.space j

-- What is done to a space that is there.
abbrev pub on_space : {A : Type 0} → Option Space → BufferId → (Space → A) → (DriverError → A) → A
on_space none id f g = g (unknown_buffer id)
on_space (some s) id f g = f s

module _ (m : Memory) (id : BufferId) where
  abbrev pub put : Space → Memory
  put s = record m { space = with_space m id (some s) }

  abbrev pub refuse : DriverError → Memory × Outcome DriverError (Unit {0})
  refuse e = (m, err e)

  abbrev pub write : List ℕ → Memory × Outcome DriverError (Unit {0})
  write xs =
      on_space (m.space id) id
        (λ s.
          if leb (length xs) s.size
          then (put (record s { valid = length xs; cell = copy s.cell 0 xs }), ok tt)
          else refuse (write_too_large s.size (length xs)))
        refuse

  abbrev pub write_at : ℕ → List ℕ → Memory × Outcome DriverError (Unit {0})
  write_at offset xs =
      on_space (m.space id) id
        (λ s.
          if leb (offset + length xs) usize_max
          then if leb (offset + length xs) s.size
            then (
              put (record s {
                valid = max s.valid (offset + length xs);
                cell = copy s.cell offset xs;
              }),
              ok tt,
            )
            else refuse (write_out_of_bounds offset (length xs) s.size)
          else refuse (range_overflow offset (length xs)))
        refuse

  abbrev pub clear : Memory × Outcome DriverError (Unit {0})
  clear = on_space (m.space id) id (λ s. (put (record s { valid = 0 }), ok tt)) refuse

  abbrev pub read_range : ℕ → ℕ → Outcome DriverError (List ℕ)
  read_range offset n =
      on_space (m.space id) id
        (λ s.
          if leb (offset + n) usize_max
          then if leb (offset + n) s.valid
            then ok (window s.cell offset n)
            else err (read_out_of_bounds offset n s.valid)
          else err (range_overflow offset n))
        err

-- A new space of zeros, or the reason against it.
abbrev pub allocate : Memory → ℕ → Memory × Outcome DriverError BufferId
allocate m capacity =
    if capacity == 0
    then (m, err zero_sized_allocation)
    else if m.issued == u32_max
    then (m, err buffer_id_exhausted)
    else if leb capacity isize_max
    then (
      record {
        issued = m.issued + 1;
        live = m.live + 1;
        space = with_space m m.issued (some (record { size = capacity; valid = 0; cell = λ i. 0 }));
      },
      ok m.issued,
    )
    else (record m { issued = m.issued + 1 }, panic)

abbrev pub valid_len : Memory → BufferId → Outcome DriverError ℕ
valid_len m id = on_space (m.space id) id (λ s. ok s.valid) err

unfoldable pub step : Memory → Call → Memory × Reply
step m (allocate_buffer capacity) = let (n, r) = allocate m capacity in (n, allocated r)
step m (write_buffer id xs) = let (n, r) = write m id xs in (n, done r)
step m (write_buffer_at id offset xs) = let (n, r) = write_at m id offset xs in (n, done r)
step m (clear_buffer id) = let (n, r) = clear m id in (n, done r)
step m (release_buffer id) =
    on_space (m.space id) id
      (λ s. (
        record { issued = m.issued; live = m.live - 1; space = with_space m id none },
        released (
            ok (record {
              id = id;
              capacity = s.size;
              contents = returns (window s.cell 0 s.valid);
            })),
      ))
      (λ e. (m, released (err e)))
step m (read_buffer id) =
    (m, bytes (on_space (m.space id) id (λ s. ok (window s.cell 0 s.valid)) err))
step m (read_buffer_range id offset n) = (m, bytes (read_range m id offset n))
step m (initialized_len id) = (m, measured (valid_len m id))
step m buffer_count = (m, counted m.live)

unfoldable pub run : Memory → List Call → List Reply
run m [] = []
run m (c ∷ cs) = (step m c).1 ∷ run (step m c).0 cs
