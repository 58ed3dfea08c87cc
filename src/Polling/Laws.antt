-- ===== src/Polling/Laws.antt =====
-- src/polling.rs: the wait ends, and what it returns is true of the device.
use native.Mathlib.Nat.{mul-suc}
use rust_gpu_driver_lab.Base.{
  ℕ, zero, suc, ◌+◌, ◌-◌, ◌*◌, ◌≤◌, ◌<◌, ◌≡◌, ◌≢◌, inl, inr, arith, refl, min, true, false,
  Bool-cases, leb, Option, some, saturating_add, Outcome, ok, err, panic,
}
use rust_gpu_driver_lab.RegisterFields.{StatusSnapshot, ready, fault}
use rust_gpu_driver_lab.Polling
use rust_gpu_driver_lab.Polling.{
  PollConfig, PollTimer, StatusReader, PollError, source, faulted, timed_out, Waiting, Answer,
  returned, again, pass, pause, with_timer, judge, poll, continue, wait_until_ready,
}

-- What the loop needs of a timer: a sleep lasts at least as long as asked, measured from any instant
-- that the clock has passed, and the clock does not go back before such an instant.
pub record Timeline (clock : PollTimer) : Type 1 where
  pub Past : clock.Instant → clock.Timer → Type 0
  pub now_past : (t : clock.Timer) → Past (clock.now t).1 (clock.now t).0
  pub delay_past :
      (t : clock.Timer) (start : clock.Instant) (d : ℕ)
      → Past start t
      → Past start (clock.delay (clock.elapsed_since t start).0 d)
  pub delay_lasts :
      (t : clock.Timer) (start : clock.Instant) (d : ℕ)
      → Past start t
      → (clock.elapsed_since t start).1 + d
        ≤ (clock.elapsed_since (clock.delay (clock.elapsed_since t start).0 d) start).1

mul-grows : (t i : ℕ) → i ≢ 0 → t ≤ t * i
mul-grows t zero h = absurd (h refl)
mul-grows t (suc i) h = omega (arith, mul-suc t i)

-- An accepted configuration has an interval, so that as many passes as the timeout has nanoseconds
-- reach the timeout.
pub accepted-enough :
    (timeout poll_interval : ℕ) (config : PollConfig)
    → Polling.new timeout poll_interval ≡ ok config
    → (config.poll_interval ≢ 0) × (config.timeout ≤ timeout * config.poll_interval)
unfolding Polling.new
accepted-enough timeout poll_interval config made =
    let nonzero : config.poll_interval ≢ 0 = ground arith in
    let same : config.timeout ≡ timeout = ground arith in
    (nonzero, omega (arith, same, mul-grows timeout config.poll_interval nonzero))

module _ (source_of : StatusReader) (clock : PollTimer) (line : Timeline clock)
    (config : PollConfig) where
  -- The time since the start.
  abbrev pub elapsed : clock.Instant → clock.Timer → ℕ
  elapsed start t = (clock.elapsed_since t start).1

  -- The last status that the reader gave, which is the one that leaves it in this state.
  abbrev pub Seen : source_of.Reader → Outcome source_of.Error StatusSnapshot → Type 0
  Seen reader answer =
      (before : source_of.Reader) × (source_of.read_status before ≡ (reader, answer))

  -- The last call of the timer asked for the time since the start, left the timer in this state and
  -- answered that the timeout had passed.
  abbrev pub Measured : clock.Instant → clock.Timer → Type 0
  Measured start timer =
      (before : clock.Timer) × (time : ℕ) × (clock.elapsed_since before start ≡ (timer, time))
      × (config.timeout ≤ time)

  -- What is true when the wait returns.
  abbrev pub Explained :
      clock.Instant → Waiting source_of clock config → Answer source_of clock config → Type 0
  Explained start v (ok s) = Seen v.reader (ok s) × (fault s ≡ false) × (ready s ≡ true)
  Explained start v (err (source e)) = Seen v.reader (err e)
  Explained start v (err (faulted s polls)) =
      Seen v.reader (ok s) × (fault s ≡ true) × (polls ≡ v.polls)
  Explained start v (err (timed_out timeout polls s)) =
      Seen v.reader (ok s)
      × ((fault s ≡ false) × (ready s ≡ false))
      × ((timeout ≡ config.timeout) × (polls ≡ v.polls))
      × Measured start v.timer
  Explained start v panic = Seen v.reader panic

  -- What is true when it goes round: the time left shrank by an interval, if that much was left.
  abbrev pub Shrinks : clock.Instant → (w v : Waiting source_of clock config) → Type 0
  Shrinks start w v =
      line.Past start v.timer
      × (elapsed start w.timer < config.timeout)
      × (min config.timeout (elapsed start w.timer + config.poll_interval) ≤ elapsed start v.timer)

  abbrev pub Passed :
      clock.Instant → Waiting source_of clock config → Polling.Pass source_of clock config → Type 0
  Passed start w (returned v answer) = Explained start v answer
  Passed start w (again v) = Shrinks start w v

  -- The end of a pass on which the device was neither at fault nor ready.
  pause-Passed :
      (start : clock.Instant) (w : Waiting source_of clock config) (s : StatusSnapshot)
      → line.Past start w.timer
      → Seen w.reader (ok s)
      → fault s ≡ false
      → ready s ≡ false
      → let (timer, time) = clock.elapsed_since w.timer start in
        Passed start w
          (pause source_of clock config (with_timer source_of clock config w timer) s time)
  pause-Passed start w s h seen f r =
      let time = elapsed start w.timer in
      elim (Bool-cases (leb config.timeout time)) [
        | inl late ↦ rw late (seen, (f, r), (refl, refl), (w.timer, time, refl, ground arith))
        | inr early ↦ rw early (
          line.delay_past w.timer start (min config.poll_interval (config.timeout - time)) h,
          ground arith,
          ground (
            arith,
            line.delay_lasts w.timer start (min config.poll_interval (config.timeout - time)) h,
          ),
        )
      ]

  judge-Passed :
      (start : clock.Instant) (w : Waiting source_of clock config)
      (answer : Outcome source_of.Error StatusSnapshot)
      → line.Past start w.timer
      → Seen w.reader answer
      → Passed start w (judge source_of clock config start w answer)
  judge-Passed start w (err e) h seen = seen
  judge-Passed start w panic h seen = seen
  judge-Passed start w (ok s) h seen = elim (Bool-cases (fault s)) [
    | inl f ↦ rw f (seen, f, refl)
    | inr f ↦ elim (Bool-cases (ready s)) [
      | inl r ↦ rw (f, r) (seen, f, r)
      | inr r ↦ rw (f, r) (pause-Passed start w s h seen f r)
    ]
  ]

  pass-Passed :
      (start : clock.Instant) (w : Waiting source_of clock config)
      → line.Past start w.timer
      → Passed start w (pass source_of clock config start w)
  unfolding pass
  pass-Passed start w h =
      let read = source_of.read_status w.reader in
      let counted = saturating_add w.polls 1 in
      judge-Passed start (record { reader = read.0; timer = w.timer; polls = counted }) read.1 h
        (w.reader, refl)

  -- The wait ends with an answer that is explained.
  abbrev pub Ends :
      clock.Instant
      → Option (Waiting source_of clock config × Answer source_of clock config)
      → Type 0
  Ends start result =
      (v : Waiting source_of clock config) × (answer : Answer source_of clock config) × (result
        ≡ some (v, answer))
      × Explained start v answer

  -- With enough passes for the time that is left, by what the first of them does.
  continue-Ends :
      (n : ℕ) (start : clock.Instant) (w : Waiting source_of clock config)
      (p : Polling.Pass source_of clock config)
      → Passed start w p
      → config.timeout ≤ elapsed start w.timer + n * config.poll_interval
      → Ends start (continue source_of clock config (λ u. poll source_of clock config n start u) p)
  unfolding poll
  continue-Ends n start w (returned v answer) e enough = (v, answer, refl, e)
  continue-Ends zero start w (again v) (past, late, more) enough = absurd (omega (arith, late))
  continue-Ends (suc n) start w (again v) (past, late, more) enough =
      continue-Ends n start v (pass source_of clock config start v) (pass-Passed start v past)
        (ground (arith, more, mul-suc n config.poll_interval))

-- The wait ends after at most one pass more than it takes intervals to reach the timeout, if the
-- timer's sleeps last as long as asked, and whatever the device does. A status is returned only if it
-- was read, ready and without a fault; a fault only if the status that was read shows it; a timeout
-- only if the last status was neither ready nor a fault, and the wait's timer, asked once more for the
-- time since the start, answered that the timeout had passed; an error of the reader only if it gave
-- that error.
pub wait_until_ready-Ends :
    (source_of : StatusReader) (clock : PollTimer) (line : Timeline clock) (config : PollConfig)
    (n : ℕ) (reader : source_of.Reader) (timer : clock.Timer)
    → config.timeout ≤ n * config.poll_interval
    → Ends source_of clock line config
        (clock.now timer).1
        (wait_until_ready source_of clock config (suc n) reader timer)
unfolding wait_until_ready poll
wait_until_ready-Ends source_of clock line config n reader timer enough =
    let (ticked, start) = clock.now timer in
    let w : Waiting source_of clock config = record {
      reader = reader;
      timer = ticked;
      polls = 0;
    } in
    continue-Ends source_of clock line config n start w (pass source_of clock config start w)
      (pass-Passed source_of clock line config start w (line.now_past timer))
      (omega (arith, enough))
