-- ===== src/Device/Memory/Steps.antt =====
-- src/lib.rs: each call on a device is the call on the memory that it stands for.
use rust_gpu_driver_lab.Base.{
  ℕ, ◌+◌, ◌≡◌, List, [], ◌∷◌, length, ap₂, some, returns, ◌==◌, isize_max, u32_max, ending-state,
  arith, refl, ap, ◌∙◌, sym, Option-cases, inl, inr, ok, leb, Bool-cases, usize_max,
}
use rust_gpu_driver_lab.Base.HashMap
use rust_gpu_driver_lab.Device
use rust_gpu_driver_lab.Device.{GpuDevice, store}
use rust_gpu_driver_lab.Device.Buffer
use rust_gpu_driver_lab.Device.Buffer.{BufferId, GpuBuffer}
use rust_gpu_driver_lab.Device.Buffer.Views.{rewritten, written_at, contents-view, range-view}
use rust_gpu_driver_lab.Device.Invariant.{IsValid, IsEntry, default-IsValid, found-IsSound}
use rust_gpu_driver_lab.Device.Allocation.{allocate_buffer_lem}
use rust_gpu_driver_lab.Device.Calls
use rust_gpu_driver_lab.Device.Calls.{apply-Keeps, allocate_buffer-IsValid, write_buffer-IsValid}
use rust_gpu_driver_lab.Device.Contents.{
  write_buffer_found, write_buffer_at_found, write_buffer_absent, write_buffer_at_absent,
  clear_buffer_found, clear_buffer_absent, release_buffer_found, release_buffer_absent,
  read_buffer_found, read_buffer_absent, read_buffer_range_found, read_buffer_range_absent,
}
use rust_gpu_driver_lab.Device.Traces
use rust_gpu_driver_lab.Device.Traces.{
  Call, allocate_buffer, write_buffer, write_buffer_at, clear_buffer, release_buffer, read_buffer,
  read_buffer_range, initialized_len, buffer_count, allocated, done, released, bytes, look,
}
use rust_gpu_driver_lab.Device.Memory
use rust_gpu_driver_lab.Device.Memory.{put, window}
use rust_gpu_driver_lab.Device.Memory.Cells.{cells, take-window}
use rust_gpu_driver_lab.Device.Memory.Refines.{
  abstract, space_of, abstract-store, abstract-remove, abstract-fresh, space_of-rewritten,
  space_of-written_at,
}

-- One call on both sides.
abbrev pub Refines : GpuDevice → Call → Type 0
Refines d c = Memory.step (abstract d) c ≡ (abstract (Traces.step d c).0, (Traces.step d c).1)

look-space :
    {next_id : ℕ} {id : BufferId} (b : GpuBuffer)
    → IsEntry next_id id b
    → look b ≡ record {
      id = id;
      capacity = Buffer.capacity b;
      contents = returns (window (cells b.storage) 0 b.used);
    }
look-space b entry = λ i. record {
  id = entry.same_id i;
  capacity = Buffer.capacity b;
  contents =
      (contents-view b entry.sound
          ∙ ap returns (take-window b.storage 0 b.used (omega (arith, entry.sound.used_in))))
        i;
}

module _ (d : GpuDevice) (v : IsValid d) where
  pub write-abstract :
      (id : BufferId) (xs : List ℕ)
      → Memory.write (abstract d) id xs
        ≡ (abstract (Device.write_buffer d id xs).0, (Device.write_buffer d id xs).1)
  write-abstract id xs = elim (Option-cases (HashMap.get id d.buffers)) [
    | inl absent ↦ rw (write_buffer_absent d id absent xs, absent) refl
    | inr (b, there) ↦ elim (Bool-cases (leb (length xs) (Buffer.capacity b))) [
      | inl fits ↦
          rw (write_buffer_found d id there xs, there, fits)
            (ap (λ m. (m, ok tt))
              (sym (
                abstract-store d id (rewritten b xs) there
                ∙ ap (put (abstract d) id) (space_of-rewritten b xs (ground arith)))))
      | inr over ↦ rw (write_buffer_found d id there xs, there, over) refl
    ]
  ]

  write_buffer_at-Refines :
      (id : BufferId) (offset : ℕ) (xs : List ℕ) → Refines d (write_buffer_at id offset xs)
  unfolding Memory.step Traces.step
  write_buffer_at-Refines id offset xs = elim (Option-cases (HashMap.get id d.buffers)) [
    | inl absent ↦ rw (write_buffer_at_absent d id absent offset xs, absent) refl
    | inr (b, there) ↦
        let found = write_buffer_at_found d id there offset xs (found-IsSound id v there) in
        elim (Bool-cases (leb (offset + length xs) usize_max)) [
          | inl short ↦ elim (Bool-cases (leb (offset + length xs) (Buffer.capacity b))) [
            | inl fits ↦
                rw (found, there, short, fits)
                  (ap (λ m. (m, done (ok tt)))
                    (sym (
                      abstract-store d id (written_at b offset xs) there
                      ∙ ap (put (abstract d) id) (space_of-written_at b offset xs (ground arith)))))
            | inr over ↦ rw (found, there, short, over) refl
          ]
          | inr long ↦ rw (found, there, long) refl
        ]
  ]

  clear_buffer-Refines : (id : BufferId) → Refines d (clear_buffer id)
  unfolding Memory.step Traces.step
  clear_buffer-Refines id = elim (Option-cases (HashMap.get id d.buffers)) [
    | inl absent ↦ rw (clear_buffer_absent d id absent, absent) refl
    | inr (b, there) ↦
        rw (clear_buffer_found d id there, there)
          (ap (λ m. (m, done (ok tt))) (sym (cleared b there)))
  ]
    where
      cleared :
          (b : GpuBuffer)
          → HashMap.get id d.buffers ≡ some b
          → abstract (store d id (Buffer.clear b))
            ≡ put (abstract d) id (record (space_of b) { valid = 0 })
      cleared b there = abstract-store d id (Buffer.clear b) there ∙ unfold Buffer.clear in refl

  release_buffer-Refines : (id : BufferId) → Refines d (release_buffer id)
  unfolding Memory.step Traces.step
  release_buffer-Refines id = elim (Option-cases (HashMap.get id d.buffers)) [
    | inl absent ↦ rw (release_buffer_absent d id absent, absent) refl
    | inr (b, there) ↦
        rw (release_buffer_found d id there, there)
          (ap₂ (λ m r. (m, released (ok r))) (sym (abstract-remove d id v there))
            (sym (look-space b (v.entries id b there))))
  ]

  read_buffer-Refines : (id : BufferId) → Refines d (read_buffer id)
  unfolding Memory.step Traces.step
  read_buffer-Refines id = elim (Option-cases (HashMap.get id d.buffers)) [
    | inl absent ↦ rw (read_buffer_absent d id absent, absent) refl
    | inr (b, there) ↦
        let sound = found-IsSound id v there in
        rw (read_buffer_found d id there sound, there)
          (ap (λ t. (abstract d, bytes (ok t)))
            (sym (take-window b.storage 0 b.used (omega (arith, sound.used_in)))))
  ]

  read_buffer_range-Refines :
      (id : BufferId) (offset n : ℕ) → Refines d (read_buffer_range id offset n)
  unfolding Memory.step Traces.step
  read_buffer_range-Refines id offset n = elim (Option-cases (HashMap.get id d.buffers)) [
    | inl absent ↦ rw (read_buffer_range_absent d id absent offset n, absent) refl
    | inr (b, there) ↦
        let sound = found-IsSound id v there in
        let found = read_buffer_range_found d id there offset n sound in
        elim (Bool-cases (leb (offset + n) usize_max)) [
          | inl short ↦ elim (Bool-cases (leb (offset + n) b.used)) [
            | inl fits ↦
                rw (found, there, short, fits)
                  (ap (λ t. (abstract d, bytes (ok t)))
                    (sym (
                      sym (range-view b offset n (ground arith))
                      ∙ take-window b.storage offset n (ground (arith, sound.used_in)))))
            | inr over ↦ rw (found, there, short, over) refl
          ]
          | inr long ↦ rw (found, there, long) refl
        ]
  ]

  pub valid_len-abstract :
      (id : BufferId) → Memory.valid_len (abstract d) id ≡ Device.initialized_len d id
  unfolding Device.initialized_len
  valid_len-abstract id = elim (Option-cases (HashMap.get id d.buffers)) [
    | inl absent ↦ rw absent refl
    | inr (b, there) ↦ rw there refl
  ]

  pub allocate-abstract :
      (capacity : ℕ)
      → Memory.allocate (abstract d) capacity
        ≡ (abstract (Device.allocate_buffer d capacity).0, (Device.allocate_buffer d capacity).1)
  allocate-abstract capacity =
      let lem = allocate_buffer_lem d capacity v.ids_fit in
      elim (Bool-cases (capacity == 0)) [
        | inl none_asked ↦ rw (lem, none_asked) refl
        | inr some_asked ↦ elim (Bool-cases (d.next_id == u32_max)) [
          | inl last ↦ rw (lem, some_asked, last) refl
          | inr room ↦ elim (Bool-cases (leb capacity isize_max)) [
            | inl fits ↦
                rw (lem, some_asked, room, fits)
                  (ap (λ m. (m, ok d.next_id)) (sym (abstract-fresh d v capacity)))
            | inr over ↦ rw (lem, some_asked, room, over) refl
          ]
        ]
      ]

  -- Every call on a valid device is that call on the memory that the device stands for.
  pub step-Refines : (c : Call) → Refines d c
  unfolding Memory.step Traces.step
  step-Refines (allocate_buffer capacity) = rw (allocate-abstract capacity) refl
  step-Refines (write_buffer id xs) = rw (write-abstract id xs) refl
  step-Refines (write_buffer_at id offset xs) = write_buffer_at-Refines id offset xs
  step-Refines (clear_buffer id) = clear_buffer-Refines id
  step-Refines (release_buffer id) = release_buffer-Refines id
  step-Refines (read_buffer id) = read_buffer-Refines id
  step-Refines (read_buffer_range id offset n) = read_buffer_range-Refines id offset n
  step-Refines (initialized_len id) = rw (valid_len-abstract id) refl
  step-Refines buffer_count = unfold Device.buffer_count in refl

  step-IsValid : (c : Call) → IsValid (Traces.step d c).0
  unfolding Traces.step Calls.apply
  step-IsValid (allocate_buffer capacity) = allocate_buffer-IsValid d v capacity
  step-IsValid (write_buffer id xs) = write_buffer-IsValid d v id xs
  step-IsValid (write_buffer_at id offset xs) =
      (apply-Keeps d v (Calls.write_buffer_at id offset xs)).valid
  step-IsValid (clear_buffer id) = (apply-Keeps d v (Calls.clear_buffer id)).valid
  step-IsValid (release_buffer id) =
      rw ending-state at ((apply-Keeps d v (Calls.release_buffer id)).valid)
  step-IsValid (read_buffer id) = v
  step-IsValid (read_buffer_range id offset n) = v
  step-IsValid (initialized_len id) = v
  step-IsValid buffer_count = v

run_from :
    (d : GpuDevice) (cs : List Call) → IsValid d → Memory.run (abstract d) cs ≡ Traces.run d cs
unfolding Memory.run Traces.run
run_from d [] v = refl
run_from d (c ∷ cs) v =
    rw (step-Refines d v c)
      (ap (λ rs. (Traces.step d c).1 ∷ rs) (run_from (Traces.step d c).0 cs (step-IsValid d v c)))

-- A new device answers every sequence of calls of its public methods, errors and panics included, as
-- an empty memory: one that gives each buffer an address space of its own, of some size, in which the
-- addresses below a limit can be read.
pub device_run-Memory : (cs : List Call) → Traces.run Device.default cs ≡ Memory.run Memory.empty cs
device_run-Memory cs = sym (run_from Device.default cs default-IsValid)
