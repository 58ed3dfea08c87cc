-- ===== src/Polling/Host.antt =====
-- src/polling.rs: the timer of the host, over a clock that keeps the documentation of the standard
-- library.
use rust_gpu_driver_lab.Base.{ℕ, suc, ◌+◌, ◌-◌, ◌≤◌, ◌≡◌, arith, ok}
use rust_gpu_driver_lab.Polling
use rust_gpu_driver_lab.Polling.{
  PollConfig, SystemClock, StatusReader, Waiting, Answer, host_poll_timer, wait_until_ready,
}
use rust_gpu_driver_lab.Polling.Laws.{Timeline, Ends, accepted-enough, wait_until_ready-Ends}

-- The clock never goes back; an instant is a time between the start and the end of the call that
-- took it; an elapsed time is the difference of the times, or zero; a sleep lasts at least as asked.
pub record IsMonotonic (os : SystemClock) : Type 0 where
  pub time : os.World → ℕ
  pub taken : os.Moment → ℕ
  pub now_reads :
      (t : os.World)
      → (time t ≤ taken (os.instant_now t).1)
        × (taken (os.instant_now t).1 ≤ time (os.instant_now t).0)
  pub elapsed_later : (t : os.World) (i : os.Moment) → time t ≤ time (os.elapsed t i).0
  pub elapsed_reads :
      (t : os.World) (i : os.Moment)
      → (time t - taken i ≤ (os.elapsed t i).1)
        × ((os.elapsed t i).1 ≤ time (os.elapsed t i).0 - taken i)
  pub sleep_lasts : (t : os.World) (d : ℕ) → time t + d ≤ time (os.sleep t d)

module _ (os : SystemClock) (h : IsMonotonic os) where
  pub host-Timeline : Timeline (host_poll_timer os)
  host-Timeline = record {
    Past = λ start t. h.taken start ≤ h.time t;
    now_past = λ t. (h.now_reads t).1;
    delay_past = λ t start d past.
        omega (arith, past, h.elapsed_later t start, h.sleep_lasts (os.elapsed t start).0 d);
    delay_lasts = λ t start d past.
        let ticked = (os.elapsed t start).0 in
        omega (
          arith,
          past,
          h.elapsed_later t start,
          (h.elapsed_reads t start).1,
          h.sleep_lasts ticked d,
          (h.elapsed_reads (os.sleep ticked d) start).0,
        );
  }

-- With the timer of the host, over a clock that never goes back and sleeps at least as long as asked,
-- and a configuration that was accepted, the wait returns after at most one pass more than the
-- timeout has nanoseconds, its answer is true of what the reader reported, and it is a timeout only if
-- the clock, asked last, answered that the timeout had passed.
pub host_wait-Ends :
    (os : SystemClock) (h : IsMonotonic os) (source_of : StatusReader) (config : PollConfig)
    (timeout poll_interval : ℕ) (reader : source_of.Reader) (world : os.World)
    → Polling.new timeout poll_interval ≡ ok config
    → Ends source_of
        (host_poll_timer os)
        (host-Timeline os h)
        config
        ((host_poll_timer os).now world).1
        (wait_until_ready source_of (host_poll_timer os) config (suc timeout) reader world)
host_wait-Ends os h source_of config timeout poll_interval reader world made =
    wait_until_ready-Ends source_of (host_poll_timer os) (host-Timeline os h) config timeout reader
      world (accepted-enough timeout poll_interval config made).1
