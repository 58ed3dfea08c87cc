-- ===== src/Device/Capacity.antt =====
-- src/lib.rs: allocating and writing keep every buffer and its capacity.
use rust_gpu_driver_lab.Base.{
  ℕ, ◌≤◌, ◌≡◌, List, arith, none, some, length, inl, inr, Option-cases, ==_iff, Bool-cases, ◌==◌,
  length-append, length-drop, drop, dec_le, le→leb, lt→not_leb, isize_max, u32_max, leb, ap, sym,
  ◌∙◌,
}
use rust_gpu_driver_lab.Base.HashMap
use rust_gpu_driver_lab.Base.HashMap.{get-insert}
use rust_gpu_driver_lab.Device
use rust_gpu_driver_lab.Device.{GpuDevice, store}
use rust_gpu_driver_lab.Device.Buffer
use rust_gpu_driver_lab.Device.Buffer.{BufferId, GpuBuffer}
use rust_gpu_driver_lab.Device.Buffer.Views.{rewritten}
use rust_gpu_driver_lab.Device.Invariant.{IsValid}
use rust_gpu_driver_lab.Device.Contents.{write_buffer_found, write_buffer_absent}
use rust_gpu_driver_lab.Device.Allocation.{allocate_buffer_lem, with_fresh, fresh, next_id-unused}

-- There is a buffer under this identifier, of this capacity.
abbrev pub HasCapacity : GpuDevice → BufferId → ℕ → Type 0
HasCapacity d id n = (b : GpuBuffer) × (HashMap.get id d.buffers ≡ some b) × (Buffer.capacity b ≡ n)

pub HasCapacity-store :
    (d : GpuDevice) (id j : BufferId) (n : ℕ) {b : GpuBuffer} (c : GpuBuffer)
    → HashMap.get id d.buffers ≡ some b
    → Buffer.capacity c ≡ Buffer.capacity b
    → HasCapacity d j n
    → HasCapacity (store d id c) j n
HasCapacity-store d id j n {b} c there same (old, found, size) = elim (Bool-cases (id == j)) [
  | inl e ↦
      let one : old ≡ b = cc (ap (λ k. HashMap.get k d.buffers) ((==_iff id j).0 e)) in
      (c, ground (arith, get-insert id j c d.buffers), same ∙ sym (ap Buffer.capacity one) ∙ size)
  | inr e ↦ (old, ground (arith, get-insert id j c d.buffers), size)
]

capacity-rewritten :
    (b : GpuBuffer) (bytes : List ℕ)
    → length bytes ≤ Buffer.capacity b
    → Buffer.capacity (rewritten b bytes) ≡ Buffer.capacity b
capacity-rewritten b bytes fits = omega (
  arith,
  length-append bytes (drop (length bytes) b.storage),
  length-drop (length bytes) b.storage,
)

pub HasCapacity-write_buffer :
    (d : GpuDevice) (id j : BufferId) (bytes : List ℕ) (n : ℕ)
    → HasCapacity d j n
    → HasCapacity (Device.write_buffer d id bytes).0 j n
HasCapacity-write_buffer d id j bytes n h = elim (Option-cases (HashMap.get id d.buffers)) [
  | inl absent ↦ rw (write_buffer_absent d id absent bytes) h
  | inr (b, there) ↦
      rw (write_buffer_found d id there bytes) (elim (dec_le (length bytes) (Buffer.capacity b)) [
        | yes fits ↦ rw (le→leb _ _ fits) (
            HasCapacity-store d id j n (rewritten b bytes) there (capacity-rewritten b bytes fits)
              h)
        | no over ↦ rw (lt→not_leb (length bytes) (Buffer.capacity b) (omega arith)) h
      ])
]

HasCapacity-insert :
    (d : GpuDevice) (j : BufferId) (n : ℕ) (capacity : ℕ)
    → HashMap.get d.next_id d.buffers ≡ none
    → HasCapacity d j n
    → HasCapacity (with_fresh d capacity) j n
HasCapacity-insert d j n capacity unused (old, found, size) = (
  old,
  ground (
    arith,
    get-insert d.next_id j (fresh d.next_id capacity) d.buffers,
    ==_iff d.next_id j,
    ap (λ k. HashMap.get k d.buffers) {x = d.next_id} {y = j},
  ),
  size,
)

pub HasCapacity-allocate_buffer :
    (d : GpuDevice) (capacity : ℕ) (j : BufferId) (n : ℕ)
    → IsValid d
    → HasCapacity d j n
    → HasCapacity (Device.allocate_buffer d capacity).0 j n
HasCapacity-allocate_buffer d capacity j n v h =
    rw (allocate_buffer_lem d capacity v.ids_fit) (elim (Bool-cases (capacity == 0)) [
      | inl zero ↦ rw zero h
      | inr pos ↦ rw pos (elim (Bool-cases (d.next_id == u32_max)) [
        | inl last ↦ rw last h
        | inr room ↦ rw room (elim (Bool-cases (leb capacity isize_max)) [
          | inl fits ↦ rw fits (HasCapacity-insert d j n capacity (next_id-unused d v) h)
          | inr over ↦ rw over h
        ])
      ])
    ])
