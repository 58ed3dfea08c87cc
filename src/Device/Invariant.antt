-- ===== src/Device/Invariant.antt =====
-- src/lib.rs: the invariant of a device, and that every operation keeps it.
use rust_gpu_driver_lab.Base.{
  ℕ, ◌≤◌, ◌<◌, ◌≡◌, arith, some, subst, ◌∙◌, ◌==◌, u32_max, Bool-cases, inl, inr, ==_iff, true,
}
use rust_gpu_driver_lab.Base.HashMap
use rust_gpu_driver_lab.Base.HashMap.{get-insert, get-remove}
use rust_gpu_driver_lab.Device.{GpuDevice, default, store}
use rust_gpu_driver_lab.Device.Buffer.{BufferId, GpuBuffer}
use rust_gpu_driver_lab.Device.Buffer.Views.{IsSound}

-- What holds of the buffer that stands under a key.
pub record IsEntry (next_id : ℕ) (id : BufferId) (b : GpuBuffer) : Type 0 where
  pub same_id : b.id ≡ id
  pub given_out : id < next_id
  pub sound : IsSound b

pub record IsValid (d : GpuDevice) : Type 0 where
  pub entries :
      (id : BufferId) (b : GpuBuffer) → HashMap.get id d.buffers ≡ some b → IsEntry d.next_id id b
  pub ids_fit : d.next_id ≤ u32_max
  pub keys_unique : HashMap.IsMap d.buffers

pub default-IsValid : IsValid default
default-IsValid = record { entries = λ id b e. cc; ids_fit = omega arith; keys_unique = tt }

-- Putting an entry under a key keeps the invariant.
pub insert-IsValid :
    (next_id : ℕ) (id : BufferId) (b : GpuBuffer) (d : GpuDevice)
    → IsValid d
    → d.next_id ≤ next_id
    → next_id ≤ u32_max
    → IsEntry next_id id b
    → IsValid (record { next_id = next_id; buffers = HashMap.insert id b d.buffers })
insert-IsValid next_id id b d v grows fits entry = record {
  entries = λ j c e. elim (Bool-cases (id == j)) [
    | inl same ↦ subst (IsEntry next_id j) (present j c same e) (rw (← (==_iff id j).0 same) entry)
    | inr other ↦ kept j c (v.entries j c (rw (get-insert id j b d.buffers, other) at e))
  ];
  ids_fit = fits;
  keys_unique = HashMap.insert-IsMap id b d.buffers v.keys_unique;
}
  where
    present :
        (j : BufferId) (c : GpuBuffer)
        → (id == j) ≡ true
        → HashMap.get j (HashMap.insert id b d.buffers) ≡ some c
        → b ≡ c
    present j c same e = ground (arith, get-insert id j b d.buffers)

    kept : (j : BufferId) (c : GpuBuffer) → IsEntry d.next_id j c → IsEntry next_id j c
    kept j c h = ground arith

pub remove-IsValid :
    (id : BufferId) (d : GpuDevice)
    → IsValid d
    → IsValid (record d { buffers = HashMap.remove id d.buffers })
remove-IsValid id d v = record {
  entries = λ j c e. ground (arith, get-remove id j d.buffers, v.entries j c);
  ids_fit = v.ids_fit;
  keys_unique = HashMap.remove-IsMap id d.buffers v.keys_unique;
}

module _ {d : GpuDevice} (id : BufferId) (v : IsValid d) where
  -- A buffer that is found is sound.
  pub found-IsSound : {b : GpuBuffer} → HashMap.get id d.buffers ≡ some b → IsSound b
  found-IsSound {b} e = (v.entries id b e).sound

  -- Storing a sound successor of a buffer that is there keeps the invariant.
  pub store-IsValid :
      {b : GpuBuffer} (c : GpuBuffer)
      → HashMap.get id d.buffers ≡ some b
      → c.id ≡ b.id
      → IsSound c
      → IsValid (store d id c)
  store-IsValid {b} c e same s = insert-IsValid d.next_id id c d v (omega arith) v.ids_fit (record {
    same_id = same ∙ (v.entries id b e).same_id;
    given_out = (v.entries id b e).given_out;
    sound = s;
  })
