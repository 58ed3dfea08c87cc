-- ===== src/RegisterFile/Refines.antt =====
-- src/registers.rs, src/register_fields.rs, src/interrupts.rs: a block behaves as five words.
use rust_gpu_driver_lab.Base.{
  ℕ, ◌+◌, ◌*◌, ◌≤◌, ◌<◌, ◌≡◌, ◌≢◌, ◌⊎◌, ap, sym, ◌∙◌, ◌==◌, if◌then◌else◌, refl, arith, List, [],
  ◌∷◌, ok,
}
use rust_gpu_driver_lab.Mmio.{Memory, Slice, register_address, register_alignment, stored}
use rust_gpu_driver_lab.Registers
use rust_gpu_driver_lab.Registers.{
  Access, Register, GpuRegisterBlock, required_registers, read_write_readable, read_write_writable,
  write_only_writable,
}
use rust_gpu_driver_lab.Registers.Laws.{IsBlock, held, read_ok, write_ok, from_slice-IsBlock}
use rust_gpu_driver_lab.RegisterFields
use rust_gpu_driver_lab.RegisterFields.{ControlValue}
use rust_gpu_driver_lab.RegisterFields.Block.{read_status_ok}
use rust_gpu_driver_lab.Interrupts
use rust_gpu_driver_lab.Interrupts.Laws.{pending_lem}
use rust_gpu_driver_lab.RegisterFile
use rust_gpu_driver_lab.RegisterFile.{
  Event, Reply, read_control, write_control, modify_control, read_status, issue_command, pending,
  ack, device_status, device_int_status, finished, controlled, reported, interrupted, acknowledged,
  nothing,
}
use rust_gpu_driver_lab.RegisterFile.Cells
use rust_gpu_driver_lab.RegisterFile.Cells.{Cells}

-- What the five registers hold.
unfoldable pub cells_of : GpuRegisterBlock → Memory → Cells
cells_of b m = record {
  control = held m b Registers.control;
  status = held m b Registers.status;
  command = held m b Registers.command;
  int_status = held m b Registers.int_status;
  int_ack = held m b Registers.int_ack;
}

-- No byte of the five registers stands at this address.
abbrev pub IsOutside : GpuRegisterBlock → ℕ → Type 0
IsOutside b address =
    (address < b.mmio.base) ⊎ (b.mmio.base + register_alignment * required_registers ≤ address)

module _ (b : GpuRegisterBlock) where
  -- A store to one register of the block.
  held-stored :
      (m : Memory) (i v : ℕ) {a : Access} (r : Register a)
      → held (stored m (register_address b.mmio i) v) b r ≡ (if r.index == i then v else held m b r)
  held-stored m i v r = ground arith

  -- A step agrees with the step of the register file, and leaves the memory outside.
  pub record Steps (m : Memory) (e : Event) : Type 0 where
    pub replied : (RegisterFile.step b m e).1 ≡ (Cells.step (cells_of b m) e).1
    pub holds : cells_of b (RegisterFile.step b m e).0 ≡ (Cells.step (cells_of b m) e).0
    pub outside :
        (address : ℕ) → IsOutside b address → (RegisterFile.step b m e).0 address ≡ m address

  stored_outside :
      (m : Memory) (i v address : ℕ)
      → i < required_registers
      → IsOutside b address
      → stored m (register_address b.mmio i) v address ≡ m address
  stored_outside m i v address h away = ground arith

  cells-stored :
      (m : Memory) (i v : ℕ)
      → cells_of b (stored m (register_address b.mmio i) v) ≡ Cells.stored i v (cells_of b m)
  unfolding cells_of
  cells-stored m i v = λ k. record {
    control = held-stored m i v Registers.control k;
    status = held-stored m i v Registers.status k;
    command = held-stored m i v Registers.command k;
    int_status = held-stored m i v Registers.int_status k;
    int_ack = held-stored m i v Registers.int_ack k;
  }

  module _ (h : IsBlock b) where
    write_control_ok :
        (m : Memory) (value : ControlValue)
        → RegisterFields.write_control m b value
          ≡ (stored m (register_address b.mmio 0) value.raw, ok tt)
    unfolding RegisterFields.write_control
    write_control_ok m value =
        write_ok m b h read_write_writable Registers.control value.raw (omega arith)

    modify_control_ok :
        (m : Memory) (update : ControlValue → ControlValue)
        → let updated = update (record { raw = held m b Registers.control }) in
          RegisterFields.modify_control m b update
          ≡ (stored m (register_address b.mmio 0) updated.raw, ok updated)
    unfolding RegisterFields.modify_control RegisterFields.read_control
    modify_control_ok m update =
        rw
          (
            read_ok m b h read_write_readable Registers.control (omega arith),
            write_control_ok m (update (record { raw = held m b Registers.control })),
          )
          refl

    issue_command_ok :
        (m : Memory) (word : RegisterFields.CommandWord)
        → RegisterFields.issue_command m b word
          ≡ (stored m (register_address b.mmio 2) word.raw, ok tt)
    unfolding RegisterFields.issue_command
    issue_command_ok m word =
        write_ok m b h write_only_writable Registers.command word.raw (omega arith)

    ack_ok :
        (m : Memory) (events : Interrupts.InterruptEvents)
        → Interrupts.ack m b events ≡ (stored m (register_address b.mmio 4) events.bits, ok tt)
    unfolding Interrupts.ack Interrupts.ack_interrupts
    ack_ok m events =
        rw (write_ok m b h write_only_writable Registers.int_ack events.bits (omega arith)) refl

    read_control_ok :
        (m : Memory)
        → RegisterFields.read_control m b ≡ ok (record { raw = held m b Registers.control })
    unfolding RegisterFields.read_control
    read_control_ok m = rw (read_ok m b h read_write_readable Registers.control (omega arith)) refl

    -- The step of an event that stores a word to one register.
    stores :
        (m : Memory) (e : Event) (i v : ℕ) (r : Reply)
        → i < required_registers
        → RegisterFile.step b m e ≡ (stored m (register_address b.mmio i) v, r)
        → Cells.step (cells_of b m) e ≡ (Cells.stored i v (cells_of b m), r)
        → Steps m e
    stores m e i v r inside done same = record {
      replied = ap (λ p. p.1) done ∙ sym (ap (λ p. p.1) same);
      holds = ap (λ p. cells_of b p.0) done ∙ cells-stored m i v ∙ sym (ap (λ p. p.0) same);
      outside = λ address away. rw done (stored_outside m i v address inside away);
    }

    -- The step of an event that only reads.
    reads :
        (m : Memory) (e : Event) (r : Reply)
        → RegisterFile.step b m e ≡ (m, r)
        → Cells.step (cells_of b m) e ≡ (cells_of b m, r)
        → Steps m e
    reads m e r done same = record {
      replied = ap (λ p. p.1) done ∙ sym (ap (λ p. p.1) same);
      holds = ap (λ p. cells_of b p.0) done ∙ sym (ap (λ p. p.0) same);
      outside = λ address away. rw done refl;
    }

    step-Steps : (m : Memory) (e : Event) → Steps m e
    unfolding RegisterFile.step Cells.step cells_of
    step-Steps m read_control =
        reads m read_control (controlled (ok (record { raw = held m b Registers.control })))
          (rw (read_control_ok m) refl) refl
    step-Steps m (write_control value) =
        stores m (write_control value) 0 value.raw (finished (ok tt)) (omega arith)
          (rw (write_control_ok m value) refl) refl
    step-Steps m (modify_control update) =
        let updated = update (record { raw = held m b Registers.control }) in
        stores m (modify_control update) 0 updated.raw (controlled (ok updated)) (omega arith)
          (rw (modify_control_ok m update) refl) refl
    step-Steps m read_status =
        reads m read_status (reported (ok (record { raw = held m b Registers.status })))
          (rw (read_status_ok m b h) refl) refl
    step-Steps m (issue_command word) =
        stores m (issue_command word) 2 word.raw (finished (ok tt)) (omega arith)
          (rw (issue_command_ok m word) refl) refl
    step-Steps m pending =
        reads m pending (interrupted (ok (record { raw = held m b Registers.int_status })))
          (rw (pending_lem m b h) refl) refl
    step-Steps m (ack events) =
        stores m (ack events) 4 events.bits (acknowledged (ok tt)) (omega arith)
          (rw (ack_ok m events) refl) refl
    step-Steps m (device_status word) =
        stores m (device_status word) 1 word nothing (omega arith) refl refl
    step-Steps m (device_int_status word) =
        stores m (device_int_status word) 3 word nothing (omega arith) refl refl

    run_from :
        (m : Memory) (es : List Event)
        → (RegisterFile.run b m es ≡ Cells.run (cells_of b m) es)
          × (cells_of b (RegisterFile.finally b m es) ≡ Cells.finally (cells_of b m) es)
          × ((address : ℕ) → IsOutside b address → RegisterFile.finally b m es address ≡ m address)
    unfolding RegisterFile.run RegisterFile.finally Cells.run Cells.finally
    run_from m [] = (refl, refl, λ address away. refl)
    run_from m (e ∷ es) =
        let s = step-Steps m e in
        let (replies, last, kept) = run_from (RegisterFile.step b m e).0 es in
        (
          rw (s.replied, sym s.holds, replies) refl,
          rw (sym s.holds) last,
          λ address away. kept address away ∙ s.outside address away,
        )

-- A block made from a slice of registers behaves as a file of five words over any sequence of calls of
-- its accessors, whatever the device stores to STATUS and INT_STATUS between them: every call
-- succeeds, reads, updates and acknowledgements give the replies of the register file, its words are
-- what the registers hold at the end, and no memory outside the five registers changes.
pub registers_run-Cells :
    (s : Slice) (b : GpuRegisterBlock) (m : Memory) (es : List Event)
    → s.address ≢ 0
    → Registers.from_slice s ≡ ok b
    → (RegisterFile.run b m es ≡ Cells.run (cells_of b m) es)
      × (cells_of b (RegisterFile.finally b m es) ≡ Cells.finally (cells_of b m) es)
      × ((address : ℕ) → IsOutside b address → RegisterFile.finally b m es address ≡ m address)
registers_run-Cells s b m es h made = run_from b (from_slice-IsBlock s h made) m es
