-- ===== src/Device/Calls.antt =====
-- src/lib.rs: what every call on a device guarantees.
use rust_gpu_driver_lab.Base.{
  ending, ending-state, ending-panic, ℕ, ◌+◌, ◌≤◌, ◌<◌, ◌≡◌, ◌≢◌, List, arith, some, length,
  Outcome, ok, err, panic, inl, inr, Option-cases, isize_max, refl, dec_le, ℕ_discrete, ==_true,
  ==_false, usize_max, le→leb, lt→not_leb, u32_max,
}
use rust_gpu_driver_lab.Base.HashMap
use rust_gpu_driver_lab.Device
use rust_gpu_driver_lab.Device.{GpuDevice, default, store}
use rust_gpu_driver_lab.Device.Buffer
use rust_gpu_driver_lab.Device.Buffer.{BufferId, GpuBuffer, DriverError}
use rust_gpu_driver_lab.Device.Buffer.Views.{
  IsSound, rewritten-IsSound, write_at-IsSound, rewritten, written_at,
}
use rust_gpu_driver_lab.Device.Invariant.{IsValid, found-IsSound, store-IsValid, remove-IsValid}
use rust_gpu_driver_lab.Device.Contents.{
  write_buffer_found, write_buffer_at_found, write_buffer_absent, write_buffer_at_absent,
  clear_buffer_found, clear_buffer_absent, release_buffer_found, release_buffer_absent,
}
use rust_gpu_driver_lab.Device.Allocation.{
  allocate_buffer_lem, with_fresh-IsValid, advanced-IsValid,
}

-- A call that may change the device.
pub data Call : Type 0 where
  allocate_buffer : (capacity : ℕ) → Call
  write_buffer : BufferId → List ℕ → Call
  write_buffer_at : BufferId → (offset : ℕ) → List ℕ → Call
  clear_buffer : BufferId → Call
  release_buffer : BufferId → Call

unfoldable pub apply : GpuDevice → Call → GpuDevice × Outcome DriverError (Unit {0})
apply d (allocate_buffer capacity) = ending (Device.allocate_buffer d capacity)
apply d (write_buffer id bytes) = Device.write_buffer d id bytes
apply d (write_buffer_at id offset bytes) = Device.write_buffer_at d id offset bytes
apply d (clear_buffer id) = Device.clear_buffer d id
apply d (release_buffer id) = ending (Device.release_buffer d id)

-- Only an allocation can panic, and only past the longest vector.
abbrev pub IsOversized : Call → Type 0
IsOversized (allocate_buffer capacity) = isize_max < capacity
IsOversized _ = ⊥

-- What every call guarantees on a valid device.
pub record Keeps (d : GpuDevice) (c : Call) (r : GpuDevice × Outcome DriverError (Unit {0}))
    : Type 0 where
  pub valid : IsValid r.0
  pub no_panic : r.1 ≡ panic → IsOversized c
  pub ids_grow : d.next_id ≤ r.0.next_id

kept : {d : GpuDevice} (c : Call) (e : DriverError) → IsValid d → Keeps d c (d, err e)
kept c e v = record { valid = v; no_panic = λ h. cc; ids_grow = omega arith }

done :
    {d : GpuDevice} (c : Call) (e : GpuDevice)
    → IsValid e
    → d.next_id ≤ e.next_id
    → Keeps d c (e, ok tt)
done c e v grow = record { valid = v; no_panic = λ h. cc; ids_grow = grow }

clear-IsSound : {b : GpuBuffer} → IsSound b → IsSound (Buffer.clear b)
unfolding Buffer.clear
clear-IsSound s = omega arith

module _ (d : GpuDevice) (v : IsValid d) where
  -- A call that stored a sound successor of a buffer that it found.
  stored :
      (c : Call) (id : BufferId) {b : GpuBuffer} (b' : GpuBuffer)
      → HashMap.get id d.buffers ≡ some b
      → b'.id ≡ b.id
      → IsSound b'
      → Keeps d c (store d id b', ok tt)
  stored c id b' there same s =
      done c (store d id b') (store-IsValid id v b' there same s) (omega arith)

  allocate_buffer-Keeps :
      (n : ℕ) → Keeps d (allocate_buffer n) (ending (Device.allocate_buffer d n))
  allocate_buffer-Keeps n = rw (allocate_buffer_lem d n v.ids_fit) (elim (ℕ_discrete n 0) [
    | yes zero ↦ rw (==_true zero) (kept _ _ v)
    | no pos ↦ rw (==_false pos) (elim (ℕ_discrete d.next_id u32_max) [
      | yes last ↦ rw (==_true last) (kept _ _ v)
      | no room ↦ rw (==_false room) (elim (dec_le n isize_max) [
        | yes fits ↦ rw (le→leb _ _ fits) (
            done _ _ (with_fresh-IsValid d n v (omega (arith, v.ids_fit)) (omega arith) fits)
              (omega arith))
        | no over ↦ rw (lt→not_leb n isize_max (omega arith)) (record {
          valid = advanced-IsValid d v (omega (arith, v.ids_fit));
          no_panic = λ h. omega arith;
          ids_grow = omega arith;
        })
      ])
    ])
  ])

  write_buffer-Keeps :
      (id : BufferId) (bytes : List ℕ)
      → Keeps d (write_buffer id bytes) (Device.write_buffer d id bytes)
  write_buffer-Keeps id bytes = elim (Option-cases (HashMap.get id d.buffers)) [
    | inl absent ↦ rw (write_buffer_absent d id absent bytes) (kept _ _ v)
    | inr (b, there) ↦
        rw (write_buffer_found d id there bytes) (elim (dec_le (length bytes) (Buffer.capacity b)) [
          | yes fits ↦ rw (le→leb _ _ fits) (
              stored _ id (rewritten b bytes) there refl
                (rewritten-IsSound b bytes (found-IsSound id v there) fits))
          | no over ↦ rw (lt→not_leb (length bytes) (Buffer.capacity b) (omega arith)) (kept _ _ v)
        ])
  ]

  write_buffer_at-Keeps :
      (id : BufferId) (offset : ℕ) (bytes : List ℕ)
      → Keeps d (write_buffer_at id offset bytes) (Device.write_buffer_at d id offset bytes)
  write_buffer_at-Keeps id offset bytes = elim (Option-cases (HashMap.get id d.buffers)) [
    | inl absent ↦ rw (write_buffer_at_absent d id absent offset bytes) (kept _ _ v)
    | inr (b, there) ↦
        let s = found-IsSound id v there in
        rw (write_buffer_at_found d id there offset bytes s)
          (elim (dec_le (offset + length bytes) usize_max) [
            | yes small ↦
                rw (le→leb _ _ small) (elim (dec_le (offset + length bytes) (Buffer.capacity b)) [
                  | yes fits ↦ rw (le→leb _ _ fits) (
                      stored _ id (written_at b offset bytes) there refl
                        (write_at-IsSound b offset bytes s fits))
                  | no over ↦
                      rw (lt→not_leb (offset + length bytes) (Buffer.capacity b) (omega arith))
                        (kept _ _ v)
                ])
            | no over ↦ rw (lt→not_leb (offset + length bytes) usize_max (omega arith)) (kept _ _ v)
          ])
  ]

  clear_buffer-Keeps : (id : BufferId) → Keeps d (clear_buffer id) (Device.clear_buffer d id)
  clear_buffer-Keeps id = elim (Option-cases (HashMap.get id d.buffers)) [
    | inl absent ↦ rw (clear_buffer_absent d id absent) (kept _ _ v)
    | inr (b, there) ↦ rw (clear_buffer_found d id there) (
        stored _ id (Buffer.clear b) there (unfold Buffer.clear in refl)
          (clear-IsSound (found-IsSound id v there)))
  ]

  release_buffer-Keeps :
      (id : BufferId) → Keeps d (release_buffer id) (ending (Device.release_buffer d id))
  release_buffer-Keeps id = elim (Option-cases (HashMap.get id d.buffers)) [
    | inl absent ↦ rw (release_buffer_absent d id absent) (kept _ _ v)
    | inr (b, there) ↦
        rw (release_buffer_found d id there) (done _ _ (remove-IsValid id d v) (omega arith))
  ]

  pub apply-Keeps : (c : Call) → Keeps d c (apply d c)
  unfolding apply
  apply-Keeps (allocate_buffer n) = allocate_buffer-Keeps n
  apply-Keeps (write_buffer id bytes) = write_buffer-Keeps id bytes
  apply-Keeps (write_buffer_at id offset bytes) = write_buffer_at-Keeps id offset bytes
  apply-Keeps (clear_buffer id) = clear_buffer-Keeps id
  apply-Keeps (release_buffer id) = release_buffer-Keeps id

-- The parts of this that a driver uses.
module _ (d : GpuDevice) (v : IsValid d) where
  pub allocate_buffer-IsValid : (n : ℕ) → IsValid (Device.allocate_buffer d n).0
  allocate_buffer-IsValid n = rw ending-state at ((allocate_buffer-Keeps d v n).valid)

  pub allocate_buffer-panic : (n : ℕ) → (Device.allocate_buffer d n).1 ≡ panic → isize_max < n
  allocate_buffer-panic n h =
      (allocate_buffer-Keeps d v n).no_panic (ending-panic (Device.allocate_buffer d n) h)

  pub write_buffer-IsValid :
      (id : BufferId) (bytes : List ℕ) → IsValid (Device.write_buffer d id bytes).0
  write_buffer-IsValid id bytes = (write_buffer-Keeps d v id bytes).valid

  pub write_buffer-ne-panic :
      (id : BufferId) (bytes : List ℕ) → (Device.write_buffer d id bytes).1 ≢ panic
  write_buffer-ne-panic id bytes h = (write_buffer-Keeps d v id bytes).no_panic h
