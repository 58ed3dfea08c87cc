-- ===== src/Polling/Sleeps.antt =====
-- src/polling.rs: how long, and how often, the wait sleeps. A timer is given a log of the sleeps that
-- are asked of it, which it does not look at.
use rust_gpu_driver_lab.Base.{
  ℕ, zero, suc, ◌+◌, ◌-◌, ◌≤◌, ◌<◌, ◌≡◌, ◌≢◌, arith, inl, inr, min, Bool-cases, List, [], ◌∷◌,
  length, leb, All, subst, some, saturating_add, u64_max, Outcome, ok, err, panic,
}
use rust_gpu_driver_lab.RegisterFields.{StatusSnapshot, ready, fault}
use rust_gpu_driver_lab.Polling
use rust_gpu_driver_lab.Polling.{
  PollConfig, PollTimer, StatusReader, Waiting, Answer, returned, again, pass, pause, with_timer,
  judge, poll, continue, wait_until_ready,
}
use rust_gpu_driver_lab.Polling.Laws.{Timeline, accepted-enough, wait_until_ready-Ends}

abbrev pub sum : List ℕ → ℕ
sum [] = 0
sum (d ∷ ds) = d + sum ds

-- The timer with the sleeps that were asked of it, the last one first.
abbrev pub logged : PollTimer → PollTimer
logged clock = record {
  Timer = clock.Timer × List ℕ;
  Instant = clock.Instant;
  now = λ (t, log). let (u, start) = clock.now t in ((u, log), start);
  elapsed_since = λ (t, log) start. let (u, d) = clock.elapsed_since t start in ((u, log), d);
  delay = λ (t, log) d. (clock.delay t d, d ∷ log);
}

abbrev pub logged-Timeline : {clock : PollTimer} → Timeline clock → Timeline (logged clock)
logged-Timeline line = record {
  Past = λ start (t, log). line.Past start t;
  now_past = λ (t, log). line.now_past t;
  delay_past = λ (t, log) start d. line.delay_past t start d;
  delay_lasts = λ (t, log) start d. line.delay_lasts t start d;
}

module _ (source_of : StatusReader) (clock : PollTimer) (line : Timeline clock)
    (config : PollConfig) where
  -- A sleep that lasts, and no longer than the interval.
  abbrev pub IsSleep : ℕ → Type 0
  IsSleep d = (0 < d) × (d ≤ config.poll_interval)

  -- What holds at the head of the loop: the sleeps are within the timeout and over by now, and there
  -- was one for every poll.
  pub record Slept (start : clock.Instant) (w : Waiting source_of (logged clock) config)
      : Type 0 where
    pub past : line.Past start w.timer.0
    pub sleeps : All IsSleep w.timer.1
    pub within : sum w.timer.1 ≤ config.timeout
    pub over : sum w.timer.1 ≤ (clock.elapsed_since w.timer.0 start).1
    pub counted : w.polls ≡ min (length w.timer.1) u64_max

  -- What holds when the wait returns.
  abbrev pub Budgeted : Waiting source_of (logged clock) config → Type 0
  Budgeted w =
      All IsSleep w.timer.1
      × (sum w.timer.1 ≤ config.timeout)
      × (w.polls ≡ min (1 + length w.timer.1) u64_max)

  abbrev pub Keeps : clock.Instant → Polling.Pass source_of (logged clock) config → Type 0
  Keeps start (returned v answer) = Budgeted v
  Keeps start (again v) = Slept start v

  -- The state after the status was read.
  abbrev read_from :
      Waiting source_of (logged clock) config
      → source_of.Reader
      → Waiting source_of (logged clock) config
  read_from w reader = record { reader = reader; timer = w.timer; polls = saturating_add w.polls 1 }

  module _ (nonzero : config.poll_interval ≢ 0) (start : clock.Instant)
      (w : Waiting source_of (logged clock) config) (h : Slept start w) where
    read-Budgeted : (reader : source_of.Reader) → Budgeted (read_from w reader)
    read-Budgeted reader = (h.sleeps, h.within, ground (arith, h.counted))

    pause-Keeps :
        (reader : source_of.Reader) (s : StatusSnapshot)
        → let (timer, time) = clock.elapsed_since w.timer.0 start in
          Keeps start (
            pause source_of
              (logged clock)
              config
              (with_timer source_of (logged clock) config (read_from w reader) (timer, w.timer.1))
              s
              time)
    pause-Keeps reader s =
        let time = (clock.elapsed_since w.timer.0 start).1 in
        let nap = min config.poll_interval (config.timeout - time) in
        elim (Bool-cases (leb config.timeout time)) [
          | inl late ↦ rw late (read-Budgeted reader)
          | inr early ↦ rw early (record {
            past = line.delay_past w.timer.0 start nap h.past;
            sleeps = ((ground (arith, nonzero), ground arith), h.sleeps);
            within = ground (arith, h.over);
            over = ground (arith, h.over, line.delay_lasts w.timer.0 start nap h.past);
            counted = ground (arith, h.counted);
          })
        ]

    judge-Keeps :
        (reader : source_of.Reader) (answer : Outcome source_of.Error StatusSnapshot)
        → Keeps start (judge source_of (logged clock) config start (read_from w reader) answer)
    judge-Keeps reader (err e) = read-Budgeted reader
    judge-Keeps reader panic = read-Budgeted reader
    judge-Keeps reader (ok s) = elim (Bool-cases (fault s)) [
      | inl f ↦ rw f (read-Budgeted reader)
      | inr f ↦ elim (Bool-cases (ready s)) [
        | inl r ↦ rw (f, r) (read-Budgeted reader)
        | inr r ↦ rw (f, r) (pause-Keeps reader s)
      ]
    ]

    pass-Keeps : Keeps start (pass source_of (logged clock) config start w)
    unfolding pass
    pass-Keeps = let (reader, answer) = source_of.read_status w.reader in judge-Keeps reader answer

  continue-Budgeted :
      (nonzero : config.poll_interval ≢ 0) (fuel : ℕ) (start : clock.Instant)
      (p : Polling.Pass source_of (logged clock) config)
      {v : Waiting source_of (logged clock) config}
      {answer : Answer source_of (logged clock) config}
      → Keeps start p
      → continue source_of
          (logged clock)
          config
          (λ u. poll source_of (logged clock) config fuel start u)
          p
        ≡ some (v, answer)
      → Budgeted v
  unfolding poll
  continue-Budgeted nonzero fuel start (returned u a) {v} k e =
      let same : u ≡ v = ground arith in subst Budgeted same k
  continue-Budgeted nonzero zero start (again u) k e = absurd (ground arith)
  continue-Budgeted nonzero (suc fuel) start (again u) k e =
      continue-Budgeted nonzero fuel start (pass source_of (logged clock) config start u)
        (pass-Keeps nonzero start u k) e

-- A wait with a timer whose sleeps last as long as asked returns, and of the sleeps that it asked for
-- none is empty or longer than the interval and all together are not longer than the timeout; the
-- number of polls that it counted is one more than the number of sleeps, or `u64::MAX` if that is less.
pub wait_until_ready-Budgeted :
    (source_of : StatusReader) (clock : PollTimer) (line : Timeline clock) (config : PollConfig)
    (timeout poll_interval : ℕ) (reader : source_of.Reader) (timer : clock.Timer)
    → Polling.new timeout poll_interval ≡ ok config
    → (v : Waiting source_of (logged clock) config) × (answer : Answer source_of
        (logged clock)
        config)
      × (wait_until_ready source_of (logged clock) config (suc timeout) reader (timer, [])
          ≡ some (v, answer))
      × Budgeted source_of clock line config v
unfolding Polling.new wait_until_ready poll
wait_until_ready-Budgeted source_of clock line config timeout poll_interval reader timer made =
    let (nonzero, enough) = accepted-enough timeout poll_interval config made in
    let (ticked, start) = clock.now timer in
    let w : Waiting source_of (logged clock) config = record {
      reader = reader;
      timer = (ticked, []);
      polls = 0;
    } in
    let slept : Slept source_of clock line config start w = record {
      past = line.now_past timer;
      sleeps = tt;
      within = omega arith;
      over = omega arith;
      counted = ground arith;
    } in
    let (v, answer, returns, explained) =
      wait_until_ready-Ends source_of (logged clock) (logged-Timeline line) config timeout reader
        (timer, []) enough in
    (
      v,
      answer,
      returns,
      continue-Budgeted source_of clock line config nonzero timeout start
          (pass source_of (logged clock) config start w)
          (pass-Keeps source_of clock line config nonzero start w slept) returns,
    )
