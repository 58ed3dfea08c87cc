-- ===== src/Polling/InTime.antt =====
-- src/polling.rs: a device that becomes ready in time is found ready, if the timer is exact.
use native.Mathlib.Nat.{mul-suc}
use rust_gpu_driver_lab.Base.{
  ℕ, zero, suc, ◌+◌, ◌-◌, ◌*◌, ◌<◌, ◌≡◌, ◌≢◌, refl, arith, min, true, false, lt→not_leb, some,
  saturating_add, ok,
}
use rust_gpu_driver_lab.RegisterFields.{StatusSnapshot, ready, fault}
use rust_gpu_driver_lab.Polling
use rust_gpu_driver_lab.Polling.{
  PollConfig, PollTimer, StatusReader, Waiting, Answer, returned, again, pass, pause, with_timer,
  judge, poll, continue, wait_until_ready,
}
use rust_gpu_driver_lab.Polling.Laws.{Timeline, accepted-enough}

-- A timer whose sleeps last exactly as long as asked, on a clock that stands still otherwise.
pub record IsExact {clock : PollTimer} (line : Timeline clock) : Type 0 where
  pub starts :
      (t : clock.Timer) → let (u, start) = clock.now t in (clock.elapsed_since u start).1 ≡ 0
  pub sleeps :
      (t : clock.Timer) (start : clock.Instant) (d : ℕ)
      → line.Past start t
      → let (u, time) = clock.elapsed_since t start in
        (clock.elapsed_since (clock.delay u d) start).1 ≡ time + d

module _ (source_of : StatusReader) where
  -- The reader gives so many statuses that are neither ready nor a fault, and then one that is ready.
  pub data ReadyAfter : ℕ → source_of.Reader → StatusSnapshot → Type 0 where
    at_once :
        {r r' : source_of.Reader} {s : StatusSnapshot}
        → source_of.read_status r ≡ (r', ok s)
        → fault s ≡ false
        → ready s ≡ true
        → ReadyAfter 0 r s
    later :
        {k : ℕ} {r r' : source_of.Reader} {t s : StatusSnapshot}
        → source_of.read_status r ≡ (r', ok t)
        → fault t ≡ false
        → ready t ≡ false
        → ReadyAfter k r' s
        → ReadyAfter (suc k) r s

module _ (source_of : StatusReader) (clock : PollTimer) (line : Timeline clock)
    (exact : IsExact line) (config : PollConfig) where
  -- A pass that finds the device busy before the timeout sleeps.
  pass-again :
      (start : clock.Instant) (w : Waiting source_of clock config) {r' : source_of.Reader}
      {t : StatusSnapshot}
      → source_of.read_status w.reader ≡ (r', ok t)
      → fault t ≡ false
      → ready t ≡ false
      → (clock.elapsed_since w.timer start).1 < config.timeout
      → let (timer, time) = clock.elapsed_since w.timer start in
        pass source_of clock config start w
        ≡ again (record {
          reader = r';
          timer = clock.delay timer (min config.poll_interval (config.timeout - time));
          polls = saturating_add w.polls 1;
        })
  unfolding pass
  pass-again start w e f r early =
      rw (e, f, r, lt→not_leb config.timeout (clock.elapsed_since w.timer start).1 early) refl

  pass-ready :
      (start : clock.Instant) (w : Waiting source_of clock config) {r' : source_of.Reader}
      {s : StatusSnapshot}
      → source_of.read_status w.reader ≡ (r', ok s)
      → fault s ≡ false
      → ready s ≡ true
      → pass source_of clock config start w
        ≡ returned
            (record { reader = r'; timer = w.timer; polls = saturating_add w.polls 1 })
            (ok s)
  unfolding pass
  pass-ready start w e f r = rw (e, f, r) refl

  poll-ready :
      (k : ℕ) (start : clock.Instant) (w : Waiting source_of clock config) {s : StatusSnapshot}
      → config.poll_interval ≢ 0
      → line.Past start w.timer
      → ReadyAfter source_of k w.reader s
      → (clock.elapsed_since w.timer start).1 + k * config.poll_interval
        < config.timeout + config.poll_interval
      → (v : Waiting source_of clock config) × (poll source_of clock config (suc k) start w
          ≡ some (v, ok s))
  unfolding poll
  poll-ready zero start w nonzero past (at_once {r' = r'} e f r) h = (
    record { reader = r'; timer = w.timer; polls = saturating_add w.polls 1 },
    rw (pass-ready start w e f r) refl,
  )
  poll-ready (suc k) start w nonzero past (later {r' = r'} e f r rest) h =
      let (timer, time) = clock.elapsed_since w.timer start in
      let nap = min config.poll_interval (config.timeout - time) in
      let early : time < config.timeout = omega (arith, h, mul-suc k config.poll_interval) in
      let next : Waiting source_of clock config = record {
        reader = r';
        timer = clock.delay timer nap;
        polls = saturating_add w.polls 1;
      } in
      let (v, found) =
        poll-ready k start next nonzero (line.delay_past w.timer start nap past) rest (
          ground (arith, h, exact.sleeps w.timer start nap past, mul-suc k config.poll_interval)) in
      (v, rw (pass-again start w e f r early) found)

-- With an exact timer and an accepted configuration, a device that is neither ready nor at fault at the
-- first `k` reads and ready at the next one is found ready, if `k` intervals are shorter than the
-- timeout and one interval together. The wait reads once more after the sleep that reaches the timeout.
pub wait_until_ready-in_time :
    (source_of : StatusReader) (clock : PollTimer) (line : Timeline clock) (exact : IsExact line)
    (config : PollConfig) (timeout poll_interval k : ℕ) (reader : source_of.Reader)
    (timer : clock.Timer) {s : StatusSnapshot}
    → Polling.new timeout poll_interval ≡ ok config
    → ReadyAfter source_of k reader s
    → k * config.poll_interval < config.timeout + config.poll_interval
    → (v : Waiting source_of clock config) × (wait_until_ready source_of clock config
          (suc k)
          reader
          timer
        ≡ some (v, ok s))
unfolding wait_until_ready
wait_until_ready-in_time source_of clock line exact config timeout poll_interval k reader timer made
      h fits =
    let (ticked, start) = clock.now timer in
    poll-ready source_of clock line exact config k start
      (record { reader = reader; timer = ticked; polls = 0 })
      (accepted-enough timeout poll_interval config made).0 (line.now_past timer) h
      (omega (arith, exact.starts timer, fits))
