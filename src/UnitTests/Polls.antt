-- ===== src/UnitTests/Polls.antt =====
-- src/polling.rs: its unit tests. Ten passes are enough for each of them.
use rust_gpu_driver_lab.Base.{ℕ, ◌≡◌, refl, true, [], ◌∷◌, length, err}
use rust_gpu_driver_lab.Mmio
use rust_gpu_driver_lab.Registers
use rust_gpu_driver_lab.RegisterFields
use rust_gpu_driver_lab.RegisterFields.{StatusSnapshot, ready}
use rust_gpu_driver_lab.Polling.{
  PollConfig, StatusReader, zero_poll_interval, source, faulted, timed_out, Waiting, Answer, new,
  block_reader, pass, poll, wait_until_ready,
}
use rust_gpu_driver_lab.UnitTests.{Unwrap, UnwrapSome}
use rust_gpu_driver_lab.UnitTests.Storage.{array, slice_of}
use rust_gpu_driver_lab.UnitTests.PollTimers.{
  from_millis, fake_poll_timer, default_timer, failed, scripted, scripted_reader, failing_reader,
}

-- `StatusSnapshot::from_raw`.
abbrev from_raw : ℕ → StatusSnapshot
from_raw raw = record { raw = raw }

abbrev busy : StatusSnapshot
busy = from_raw 0b0010

-- `PollConfig::new(timeout, poll_interval).unwrap()` of two durations in milliseconds, and a wait with
-- it on a new timer: the wait returns, and the test goes on.
abbrev Waits :
    (reader : StatusReader)
    → reader.Reader
    → (timeout poll_interval : ℕ)
    → ((config : PollConfig)
        → Waiting reader fake_poll_timer config
        → Answer reader fake_poll_timer config
        → Type 0)
    → Type 0
Waits reader start timeout poll_interval rest =
    Unwrap (new (from_millis timeout) (from_millis poll_interval)) λ config.
      UnwrapSome (wait_until_ready reader fake_poll_timer config 10 start default_timer)
        λ (w, answer). rest config w answer

ZeroPollIntervalIsRejected : Type 0
ZeroPollIntervalIsRejected = new (from_millis 10) 0 ≡ err zero_poll_interval

ImmediatelyReadyDeviceDoesNotDelay : Type 0
ImmediatelyReadyDeviceDoesNotDelay =
    Waits scripted_reader (scripted (from_raw 0b0001 ∷ [])) 10 2
      λ config w answer. Unwrap answer λ status. (ready status ≡ true) × (w.timer.delays ≡ [])

BusyDeviceIsPolledUntilReady : Type 0
BusyDeviceIsPolledUntilReady =
    Waits scripted_reader (scripted (busy ∷ busy ∷ from_raw 0b0001 ∷ [])) 20 3 λ config w answer.
      Unwrap answer λ status.
        (ready status ≡ true) × (length w.timer.delays ≡ 2) × (w.timer.now ≡ from_millis 6)

FaultStopsPollingImmediately : Type 0
FaultStopsPollingImmediately =
    Waits scripted_reader (scripted (from_raw 0b0100 ∷ [])) 20 2
      λ config w answer. (answer ≡ err (faulted (from_raw 0b0100) 1)) × (w.timer.delays ≡ [])

FaultHasPriorityOverReady : Type 0
FaultHasPriorityOverReady =
    Waits scripted_reader (scripted (from_raw 0b0101 ∷ [])) 10 1 λ config w answer.
      (status : StatusSnapshot) × (polls : ℕ) × (answer ≡ err (faulted status polls))

TimeoutReportsLastStatus : Type 0
TimeoutReportsLastStatus =
    Waits scripted_reader (scripted (busy ∷ [])) 5 2
      λ config w answer. answer ≡ err (timed_out (from_millis 5) 4 busy)

ZeroTimeoutPerformsOneStatusCheck : Type 0
ZeroTimeoutPerformsOneStatusCheck =
    Waits scripted_reader (scripted (busy ∷ [])) 0 1
      λ config w answer. (answer ≡ err (timed_out 0 1 busy)) × (w.timer.delays ≡ [])

PollingDoesNotDelayPastTimeoutBudget : Type 0
PollingDoesNotDelayPastTimeoutBudget =
    Waits scripted_reader (scripted (busy ∷ [])) 5 4 λ config w answer.
      (w.timer.delays ≡ from_millis 4 ∷ from_millis 1 ∷ []) × (w.timer.now ≡ from_millis 5)

SourceErrorIsPreserved : Type 0
SourceErrorIsPreserved = Waits failing_reader tt 5 1 λ config w answer. answer ≡ err (source failed)

-- The block's registers change only through it.
RegisterBlockCanBePolledThroughStatusReader : Type 0
RegisterBlockCanBePolledThroughStatusReader =
    let storage = 0 ∷ 0b0001 ∷ 0 ∷ 0 ∷ 0 ∷ [] in
    Unwrap (Registers.from_slice (slice_of storage)) λ block.
      Waits (block_reader (λ m. m) block) (array storage) 10 1
        λ config w answer. Unwrap answer λ result. ready result ≡ true

-- Every test passes.
tests_pass :
    ZeroPollIntervalIsRejected × ImmediatelyReadyDeviceDoesNotDelay × BusyDeviceIsPolledUntilReady
    × FaultStopsPollingImmediately × FaultHasPriorityOverReady × TimeoutReportsLastStatus
    × ZeroTimeoutPerformsOneStatusCheck × PollingDoesNotDelayPastTimeoutBudget
    × SourceErrorIsPreserved × RegisterBlockCanBePolledThroughStatusReader
unfolding ZeroPollIntervalIsRejected ImmediatelyReadyDeviceDoesNotDelay BusyDeviceIsPolledUntilReady
    FaultStopsPollingImmediately FaultHasPriorityOverReady TimeoutReportsLastStatus
    ZeroTimeoutPerformsOneStatusCheck PollingDoesNotDelayPastTimeoutBudget SourceErrorIsPreserved
    RegisterBlockCanBePolledThroughStatusReader new pass poll wait_until_ready
    RegisterFields.read_status Registers.from_slice Registers.check_register_len Registers.read
    Mmio.from_slice Mmio.read Mmio.check_index
tests_pass = (
  refl,
  (refl, refl),
  (refl, refl, refl),
  (refl, refl),
  (from_raw 0b0101, 1, refl),
  refl,
  (refl, refl),
  (refl, refl),
  refl,
  refl,
)
