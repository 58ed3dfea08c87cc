-- ===== src/Tests/Devices.antt =====
-- src/mmio.rs, src/registers.rs, src/register_fields.rs, src/interrupts.rs, src/polling.rs: a block of
-- six registers at address 64.
use rust_gpu_driver_lab.Base.{
  ok, ◌==◌, if◌then◌else◌, List, [], ◌∷◌, some, ℕ, ◌+◌, ◌-◌, ◌^◌, ◌≡◌, ◌≤◌, ◌<◌, refl, arith, false,
  ◌||◌, returns,
}
use rust_gpu_driver_lab.Mmio
use rust_gpu_driver_lab.Mmio.{Memory, MmioRegion}
use rust_gpu_driver_lab.Registers
use rust_gpu_driver_lab.Registers.{
  GpuRegisterBlock, RegisterBlockError, control, status, command, int_status, int_ack,
  read_write_writable,
}
use rust_gpu_driver_lab.Registers.Laws.{IsBlock}
use rust_gpu_driver_lab.RegisterFields.{
  ControlValue, performance, enabled, irq_enabled, power_mode, with_enabled, with_power_mode, flush,
  new_word, queue_id, opcode_bits, opcode,
}
use rust_gpu_driver_lab.RegisterFields.Laws.{
  IsWord, reserved, power_mode-with_power_mode, opcode_bits-new_word,
}
use rust_gpu_driver_lab.Interrupts.{queue_fault, thermal_warning, bitor, contains}
use rust_gpu_driver_lab.Interrupts.Laws.{queue_fault_event, contains-bitor}
use rust_gpu_driver_lab.Polling
use rust_gpu_driver_lab.Polling.{
  StatusReader, SystemClock, Waiting, Answer, host_poll_timer, PollConfig, PollTimer, block_reader,
  wait_until_ready,
}
use rust_gpu_driver_lab.Polling.Laws.{Timeline, Ends, wait_until_ready-Ends}
use rust_gpu_driver_lab.RegisterFile
use rust_gpu_driver_lab.RegisterFile.Cells
use rust_gpu_driver_lab.RegisterFile.Cells.{Cells}
use rust_gpu_driver_lab.RegisterFile.Refines.{cells_of, IsOutside, registers_run-Cells}
use rust_gpu_driver_lab.Polling.InTime.{
  IsExact, ReadyAfter, at_once, later, wait_until_ready-in_time,
}
use rust_gpu_driver_lab.Polling.Host.{IsMonotonic, host-Timeline, host_wait-Ends}
use rust_gpu_driver_lab.Polling.Sleeps.{logged, Budgeted, wait_until_ready-Budgeted}

-- Every register holds 201.
abbrev memory : Memory
memory = λ address. 201

abbrev region : MmioRegion
region = record { base = 64; register_count = 6 }

abbrev block : GpuRegisterBlock
block = record { mmio = region }

block-IsBlock : IsBlock block
block-IsBlock = omega arith

abbrev word : ControlValue
word = record { raw = 201 }

word-IsWord : IsWord word
word-IsWord = omega arith

power_mode-with_power_mode_example :
    (power_mode (with_power_mode word performance) ≡ returns performance)
    × (enabled (with_power_mode word performance) ≡ enabled word)
    × (irq_enabled (with_power_mode word performance) ≡ irq_enabled word)
    × (reserved (with_power_mode word performance) ≡ reserved word)
    × IsWord (with_power_mode word performance)
power_mode-with_power_mode_example = power_mode-with_power_mode word performance word-IsWord

opcode_bits-new_word_example :
    (opcode_bits (new_word flush 9) ≡ opcode flush)
    × (queue_id (new_word flush 9) ≡ 9)
    × ((new_word flush 9).raw < 2 ^ 32)
opcode_bits-new_word_example = opcode_bits-new_word flush 9 (omega arith)

contains-bitor_example :
    contains (bitor thermal_warning queue_fault) queue_fault
    ≡ (contains thermal_warning queue_fault || contains queue_fault queue_fault)
contains-bitor_example = contains-bitor thermal_warning queue_fault queue_fault_event

-- A clock whose state is the time, and which only delays advance.
abbrev clock : PollTimer
clock = record {
  Timer = ℕ;
  Instant = ℕ;
  now = λ t. (t, t);
  elapsed_since = λ t start. (t, t - start);
  delay = λ t d. t + d;
}

abbrev clock-Timeline : Timeline clock
clock-Timeline = record {
  Past = λ start t. start ≤ t;
  now_past = λ t. omega arith;
  delay_past = λ t start d past. omega (arith, past);
  delay_lasts = λ t start d past. omega (arith, past);
}

abbrev config : PollConfig
config = record { timeout = 10; poll_interval = 4 }

wait_until_ready-Ends_example :
    Ends
      (block_reader (λ m. m) block)
      clock
      clock-Timeline
      config
      0
      (wait_until_ready (block_reader (λ m. m) block) clock config 4 memory 0)
wait_until_ready-Ends_example =
    wait_until_ready-Ends (block_reader (λ m. m) block) clock clock-Timeline config 3 memory 0
      (omega arith)

-- The device reports two interrupts, which are acknowledged, and becomes ready.
abbrev events_of_block : List RegisterFile.Event
events_of_block =
    RegisterFile.modify_control (λ c. with_enabled c false)
    ∷ RegisterFile.issue_command (new_word flush 9)
    ∷ RegisterFile.device_int_status 6
    ∷ RegisterFile.pending
    ∷ RegisterFile.ack (bitor thermal_warning queue_fault)
    ∷ RegisterFile.device_status 1
    ∷ RegisterFile.read_status
    ∷ RegisterFile.read_control
    ∷ []

registers_run-Cells_example :
    (RegisterFile.run block memory events_of_block
      ≡ Cells.run (cells_of block memory) events_of_block)
    × (cells_of block (RegisterFile.finally block memory events_of_block)
        ≡ Cells.finally (cells_of block memory) events_of_block)
    × ((address : ℕ)
        → IsOutside block address
        → RegisterFile.finally block memory events_of_block address ≡ memory address)
unfolding Registers.from_slice Mmio.from_slice
registers_run-Cells_example =
    registers_run-Cells (record { address = 64; count = 6 }) block memory events_of_block
      (omega arith) refl

wait_until_ready-Budgeted_example :
    (v : Waiting (block_reader (λ m. m) block) (logged clock) config) × (answer : Answer
      (block_reader (λ m. m) block)
      (logged clock)
      config)
    × (wait_until_ready (block_reader (λ m. m) block) (logged clock) config 11 memory (0, [])
        ≡ some (v, answer))
    × Budgeted (block_reader (λ m. m) block) clock clock-Timeline config v
unfolding Polling.new
wait_until_ready-Budgeted_example =
    wait_until_ready-Budgeted (block_reader (λ m. m) block) clock clock-Timeline config 10 4 memory
      0 refl

-- A clock that stands still but for sleeps.
abbrev system : SystemClock
system = record {
  World = ℕ;
  Moment = ℕ;
  instant_now = λ t. (t, t);
  elapsed = λ t start. (t, t - start);
  sleep = λ t d. t + d;
}

system-IsMonotonic : IsMonotonic system
system-IsMonotonic = record {
  time = λ t. t;
  taken = λ t. t;
  now_reads = λ t. (omega arith, omega arith);
  elapsed_later = λ t start. omega arith;
  elapsed_reads = λ t start. (omega arith, omega arith);
  sleep_lasts = λ t d. omega arith;
}

host_wait-Ends_example :
    Ends
      (block_reader (λ m. m) block)
      (host_poll_timer system)
      (host-Timeline system system-IsMonotonic)
      config
      ((host_poll_timer system).now 0).1
      (wait_until_ready (block_reader (λ m. m) block) (host_poll_timer system) config 11 memory 0)
unfolding Polling.new
host_wait-Ends_example =
    host_wait-Ends system system-IsMonotonic (block_reader (λ m. m) block) config 10 4 memory 0 refl

clock-IsExact : IsExact clock-Timeline
clock-IsExact = record { starts = λ t. omega arith; sleeps = λ t start d past. omega (arith, past) }

-- The device becomes ready at the third read, after eight of ten nanoseconds.
abbrev slow_reader : StatusReader
slow_reader = record {
  Reader = ℕ;
  Error = RegisterBlockError;
  read_status = λ reads. (reads + 1, ok (record { raw = if reads == 2 then 1 else 2 }));
}

slow_reader-ReadyAfter : ReadyAfter slow_reader 2 0 (record { raw = 1 })
slow_reader-ReadyAfter = later refl refl refl (later refl refl refl (at_once refl refl refl))

wait_until_ready-in_time_example :
    (v : Waiting slow_reader clock config) × (wait_until_ready slow_reader clock config 3 0 0
      ≡ some (v, ok (record { raw = 1 })))
unfolding Polling.new
wait_until_ready-in_time_example =
    wait_until_ready-in_time slow_reader clock clock-Timeline clock-IsExact config 10 4 2 0 0 refl
      slow_reader-ReadyAfter (omega arith)
