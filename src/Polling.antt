-- ===== src/Polling.antt =====
-- src/polling.rs: waiting for the device to be ready, with a timeout. A `Duration` is a number of
-- nanoseconds. The timer and the reader are the caller's: the clock may advance, and the device may
-- change, whenever they are called, so every method returns the state that it leaves.
pub mod Laws
pub mod Sleeps
pub mod Host
pub mod InTime
use rust_gpu_driver_lab.Base.{
  ℕ, zero, suc, ◌-◌, min, Bool, ◌==◌, leb, if◌then◌else◌, Option, none, some, saturating_add,
  Outcome, ok, err, panic, ◌>>◌, reject_if,
}
use rust_gpu_driver_lab.Mmio.{Memory}
use rust_gpu_driver_lab.Registers.{GpuRegisterBlock, RegisterBlockError}
use rust_gpu_driver_lab.RegisterFields
use rust_gpu_driver_lab.RegisterFields.{StatusSnapshot, ready, fault}

pub record PollConfig : Type 0 where
  pub timeout : ℕ
  pub poll_interval : ℕ

pub data PollConfigError : Type 0 where
  zero_poll_interval : PollConfigError

unfoldable pub new : (timeout poll_interval : ℕ) → Outcome PollConfigError PollConfig
new timeout poll_interval = do
  reject_if (poll_interval == 0) zero_poll_interval
  ok (record { timeout = timeout; poll_interval = poll_interval })

pub record PollTimer : Type 1 where
  pub Timer : Type 0
  pub Instant : Type 0
  pub now : Timer → Timer × Instant
  pub elapsed_since : Timer → Instant → Timer × ℕ
  pub delay : Timer → ℕ → Timer

-- The operating system's clock, as the standard library gives it: `Instant::now`,
-- `Instant::elapsed` and `thread::sleep`.
pub record SystemClock : Type 1 where
  pub World : Type 0
  pub Moment : Type 0
  pub instant_now : World → World × Moment
  pub elapsed : World → Moment → World × ℕ
  pub sleep : World → ℕ → World

-- `HostPollTimer`, which has no fields.
abbrev pub host_poll_timer : SystemClock → PollTimer
host_poll_timer os = record {
  Timer = os.World;
  Instant = os.Moment;
  now = os.instant_now;
  elapsed_since = os.elapsed;
  delay = os.sleep;
}

pub record StatusReader : Type 1 where
  pub Reader : Type 0
  pub Error : Type 0
  pub read_status : Reader → Reader × Outcome Error StatusSnapshot

-- A register block as a reader: `device` is what the device does to its registers between two reads.
abbrev pub block_reader : (Memory → Memory) → GpuRegisterBlock → StatusReader
block_reader device block = record {
  Reader = Memory;
  Error = RegisterBlockError;
  read_status = λ memory. (device memory, RegisterFields.read_status memory block);
}

pub data PollError (E : Type 0) : Type 0 where
  source : E → PollError E
  faulted : (status : StatusSnapshot) (polls : ℕ) → PollError E
  timed_out : (timeout polls : ℕ) (last_status : StatusSnapshot) → PollError E

module _ (source_of : StatusReader) (clock : PollTimer) (config : PollConfig) where
  abbrev pub Answer : Type 0
  Answer = Outcome (PollError source_of.Error) StatusSnapshot

  -- The reader, the timer and `polls` at the head of the loop.
  pub record Waiting : Type 0 where
    pub reader : source_of.Reader
    pub timer : clock.Timer
    pub polls : ℕ

  -- What one pass through the body does: `return`, or go round.
  pub data Pass : Type 0 where
    returned : Waiting → Answer → Pass
    again : Waiting → Pass

  -- The end of the body, after the elapsed time was taken.
  abbrev pub pause : Waiting → StatusSnapshot → ℕ → Pass
  pause w status elapsed =
      if leb config.timeout elapsed
      then returned w (err (timed_out config.timeout w.polls status))
      else again (record {
        reader = w.reader;
        timer = clock.delay w.timer (min config.poll_interval (config.timeout - elapsed));
        polls = w.polls;
      })

  abbrev pub with_timer : Waiting → clock.Timer → Waiting
  with_timer w timer = record { reader = w.reader; timer = timer; polls = w.polls }

  -- The middle of the body, after the status was read.
  abbrev pub judge : clock.Instant → Waiting → Outcome source_of.Error StatusSnapshot → Pass
  judge start w (err e) = returned w (err (source e))
  judge start w panic = returned w panic
  judge start w (ok status) =
      if fault status
      then returned w (err (faulted status w.polls))
      else if ready status
      then returned w (ok status)
      else let (timer, elapsed) = clock.elapsed_since w.timer start in
        pause (with_timer w timer) status elapsed

  unfoldable pub pass : clock.Instant → Waiting → Pass
  pass start w =
      let (reader, answer) = source_of.read_status w.reader in
      judge start (record { reader = reader; timer = w.timer; polls = saturating_add w.polls 1 })
        answer

  -- Whether the loop goes on, with the rest of it.
  abbrev pub continue : (Waiting → Option (Waiting × Answer)) → Pass → Option (Waiting × Answer)
  continue rest (returned w answer) = some (w, answer)
  continue rest (again w) = rest w

  -- The loop, with the number of passes that it may make.
  unfoldable pub poll : ℕ → clock.Instant → Waiting → Option (Waiting × Answer)
  poll zero start w = none
  poll (suc fuel) start w = continue (λ v. poll fuel start v) (pass start w)

  unfoldable pub wait_until_ready : ℕ → source_of.Reader → clock.Timer → Option (Waiting × Answer)
  unfolding poll
  wait_until_ready fuel reader timer =
      let (timer, start) = clock.now timer in
      poll fuel start (record { reader = reader; timer = timer; polls = 0 })
