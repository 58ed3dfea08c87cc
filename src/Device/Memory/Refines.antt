-- ===== src/Device/Memory/Refines.antt =====
-- src/lib.rs: over any sequence of calls a device answers as the memory that it stands for.
use mathlib.Core.Path.{fun_ext}
use mathlib.Core.Option
use rust_gpu_driver_lab.Base.{
  ℕ, ◌+◌, ◌-◌, ◌≤◌, ◌≡◌, List, length, drop, arith, refl, ap, ◌∙◌, none, some, max,
  length-replicate, length-append, length-drop,
}
use rust_gpu_driver_lab.Base.HashMap
use rust_gpu_driver_lab.Base.HashMap.{
  get-insert, get-remove, length-insert_new, length-insert_there, length-remove,
}
use rust_gpu_driver_lab.Device.{GpuDevice, store}
use rust_gpu_driver_lab.Device.Buffer
use rust_gpu_driver_lab.Device.Buffer.{BufferId, GpuBuffer}
use rust_gpu_driver_lab.Device.Buffer.Views.{written_at, rewritten, length-spliced}
use rust_gpu_driver_lab.Device.Invariant.{IsValid}
use rust_gpu_driver_lab.Device.Allocation.{fresh, with_fresh, next_id-unused}
use rust_gpu_driver_lab.Device.Memory.{Space, Memory, with_space, put, copy}
use rust_gpu_driver_lab.Device.Memory.Cells.{cells, cells-spliced, cells-replicate}

abbrev pub space_of : GpuBuffer → Space
space_of b = record { size = Buffer.capacity b; valid = b.used; cell = cells b.storage }

-- The memory that a device stands for.
abbrev pub abstract : GpuDevice → Memory
abstract d = record {
  issued = d.next_id;
  live = HashMap.length d.buffers;
  space = λ id. Option.map space_of (HashMap.get id d.buffers);
}

module _ (d : GpuDevice) (id : BufferId) where
  space-insert :
      (b : GpuBuffer) (j : BufferId)
      → Option.map space_of (HashMap.get j (HashMap.insert id b d.buffers))
        ≡ with_space (abstract d) id (some (space_of b)) j
  space-insert b j = ground (arith, get-insert id j b d.buffers)

  space-remove :
      (j : BufferId)
      → Option.map space_of (HashMap.get j (HashMap.remove id d.buffers))
        ≡ with_space (abstract d) id none j
  space-remove j = ground (arith, get-remove id j d.buffers)

  -- Storing another version of a buffer that is there.
  pub abstract-store :
      {b : GpuBuffer} (c : GpuBuffer)
      → HashMap.get id d.buffers ≡ some b
      → abstract (store d id c) ≡ put (abstract d) id (space_of c)
  abstract-store {b} c there = λ i. record {
    issued = d.next_id;
    live = length-insert_there id c b d.buffers there i;
    space = fun_ext (space-insert c) i;
  }

  pub abstract-remove :
      {b : GpuBuffer}
      → IsValid d
      → HashMap.get id d.buffers ≡ some b
      → abstract (record d { buffers = HashMap.remove id d.buffers }) ≡ record {
        issued = d.next_id;
        live = HashMap.length d.buffers - 1;
        space = with_space (abstract d) id none;
      }
  abstract-remove {b} v there =
      λ i. record { issued = d.next_id; live = counted i; space = fun_ext space-remove i }
    where
      counted : HashMap.length (HashMap.remove id d.buffers) ≡ HashMap.length d.buffers - 1
      counted = omega (arith, length-remove id b d.buffers v.keys_unique there)

-- A buffer after a write, as a space.
pub space_of-written_at :
    (b : GpuBuffer) (offset : ℕ) (xs : List ℕ)
    → offset + length xs ≤ Buffer.capacity b
    → space_of (written_at b offset xs) ≡ record {
      size = Buffer.capacity b;
      valid = max b.used (offset + length xs);
      cell = copy (cells b.storage) offset xs;
    }
space_of-written_at b offset xs fits = λ i. record {
  size = length-spliced b.storage offset xs fits i;
  valid = max b.used (offset + length xs);
  cell = fun_ext (λ j. cells-spliced b.storage offset xs (offset + length xs) j refl fits) i;
}

length-rewritten :
    (b : GpuBuffer) (xs : List ℕ)
    → length xs ≤ Buffer.capacity b
    → Buffer.capacity (rewritten b xs) ≡ Buffer.capacity b
length-rewritten b xs fits =
    omega (arith, length-append xs (drop (length xs) b.storage), length-drop (length xs) b.storage)

pub space_of-rewritten :
    (b : GpuBuffer) (xs : List ℕ)
    → length xs ≤ Buffer.capacity b
    → space_of (rewritten b xs)
      ≡ record { size = Buffer.capacity b; valid = length xs; cell = copy (cells b.storage) 0 xs }
space_of-rewritten b xs fits = λ i. record {
  size = length-rewritten b xs fits i;
  valid = length xs;
  cell = fun_ext (λ j. cells-spliced b.storage 0 xs (length xs) j (omega arith) fits) i;
}

pub space_of-fresh :
    (id : BufferId) (capacity : ℕ)
    → space_of (fresh id capacity) ≡ record { size = capacity; valid = 0; cell = λ i. 0 }
space_of-fresh id capacity = λ i. record {
  size = length-replicate {A = ℕ} capacity 0 i;
  valid = 0;
  cell = fun_ext (cells-replicate capacity) i;
}

-- A device after an allocation.
pub abstract-fresh :
    (d : GpuDevice)
    → IsValid d
    → (capacity : ℕ)
    → abstract (with_fresh d capacity) ≡ record {
      issued = d.next_id + 1;
      live = HashMap.length d.buffers + 1;
      space =
          with_space
            (abstract d)
            d.next_id
            (some (record { size = capacity; valid = 0; cell = λ i. 0 }));
    }
abstract-fresh d v capacity = λ i. record {
  issued = d.next_id + 1;
  live = length-insert_new d.next_id (fresh d.next_id capacity) d.buffers (next_id-unused d v) i;
  space =
      (fun_ext (space-insert d d.next_id (fresh d.next_id capacity))
          ∙ ap (λ s. with_space (abstract d) d.next_id (some s))
              (space_of-fresh d.next_id capacity))
        i;
}
