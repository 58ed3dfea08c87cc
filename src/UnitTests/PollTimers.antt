-- ===== src/UnitTests/PollTimers.antt =====
-- src/polling.rs: the timer and the readers of its unit tests. Durations are in nanoseconds.
use rust_gpu_driver_lab.Base.{
  ℕ, zero, suc, ◌+◌, ◌-◌, ◌*◌, List, [], ◌∷◌, ◌++◌, Option, none, some, Outcome, ok, err,
  saturating_add,
}
use rust_gpu_driver_lab.RegisterFields.{StatusSnapshot}
use rust_gpu_driver_lab.Polling.{PollTimer, StatusReader}

-- `Duration::from_millis`.
abbrev pub from_millis : ℕ → ℕ
from_millis n = n * 1000000

pub record FakePollTimer : Type 0 where
  pub now : ℕ
  pub delays : List ℕ

abbrev pub fake_poll_timer : PollTimer
fake_poll_timer = record {
  Timer = FakePollTimer;
  Instant = ℕ;
  now = λ timer. (timer, timer.now);
  elapsed_since = λ timer start. (timer, timer.now - start);
  delay = λ timer duration. record {
    now = timer.now + duration;
    delays = timer.delays ++ (duration ∷ []);
  };
}

-- `FakePollTimer::default()`.
abbrev pub default_timer : FakePollTimer
default_timer = record { now = 0; delays = [] }

pub data FakeReadError : Type 0 where
  failed : FakeReadError

pub record ScriptedStatusReader : Type 0 where
  pub statuses : List StatusSnapshot
  pub next : ℕ

-- `ScriptedStatusReader::new`.
abbrev pub scripted : List StatusSnapshot → ScriptedStatusReader
scripted statuses = record { statuses = statuses; next = 0 }

-- `statuses.get(next)`, or else `statuses.last()`.
abbrev pub scripted_status : List StatusSnapshot → ℕ → Option StatusSnapshot
scripted_status [] next = none
scripted_status (status ∷ []) next = some status
scripted_status (status ∷ other ∷ rest) zero = some status
scripted_status (status ∷ other ∷ rest) (suc next) = scripted_status (other ∷ rest) next

abbrev pub advance :
    ScriptedStatusReader
    → Option StatusSnapshot
    → ScriptedStatusReader × Outcome FakeReadError StatusSnapshot
advance reader none = (reader, err failed)
advance reader (some status) = (record reader { next = saturating_add reader.next 1 }, ok status)

abbrev pub scripted_reader : StatusReader
scripted_reader = record {
  Reader = ScriptedStatusReader;
  Error = FakeReadError;
  read_status = λ reader. advance reader (scripted_status reader.statuses reader.next);
}

-- `FailingStatusReader`, which has no fields.
abbrev pub failing_reader : StatusReader
failing_reader = record {
  Reader = Unit {0};
  Error = FakeReadError;
  read_status = λ reader. (reader, err failed);
}
