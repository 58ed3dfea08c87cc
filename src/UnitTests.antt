-- ===== src/UnitTests.antt =====
-- The unit tests of the source files. A test is the type of what it asserts after its calls: a call of
-- `unwrap` continues with the value, and fails the test on an error or a panic.
pub mod Devices
pub mod Commands
pub mod Lifecycle
pub mod Submissions
pub mod Requests
pub mod HeapQueue
pub mod FixedQueue
pub mod SimulatedDriver
pub mod GenericDrivers
pub mod Storage
pub mod Regions
pub mod RegisterBlocks
pub mod Fields
pub mod InterruptEvents
pub mod TypedDrivers
pub mod TypedGenericDrivers
pub mod Sessions
pub mod PollTimers
pub mod Polls
use rust_gpu_driver_lab.Base.{Option, none, some, Run, returns, panicked, Outcome, ok, err, panic}

-- `r.unwrap()` and the rest of the test.
abbrev pub Unwrap : {E A : Type 0} → Outcome E A → (A → Type 0) → Type 0
Unwrap (ok a) rest = rest a
Unwrap (err e) rest = ⊥
Unwrap panic rest = ⊥

-- `r.unwrap_err()`.
abbrev pub UnwrapErr : {E A : Type 0} → Outcome E A → (E → Type 0) → Type 0
UnwrapErr (ok a) rest = ⊥
UnwrapErr (err e) rest = rest e
UnwrapErr panic rest = ⊥

-- `unwrap` on a method that takes `&mut self`: what it leaves, and its value.
abbrev pub UnwrapCall : {S E A : Type 0} → S × Outcome E A → (S → A → Type 0) → Type 0
UnwrapCall (s, r) rest = Unwrap r (rest s)

-- `o.unwrap()` on an `Option`.
abbrev pub UnwrapSome : {A : Type 0} → Option A → (A → Type 0) → Type 0
UnwrapSome (some a) rest = rest a
UnwrapSome none rest = ⊥

-- A call that may panic, and does not.
abbrev pub Calling : {A : Type 0} → Run A → (A → Type 0) → Type 0
Calling (returns a) rest = rest a
Calling panicked rest = ⊥

-- `assert!(r.is_ok())` and `assert!(r.is_err())`.
abbrev pub IsOk : {E A : Type 0} → Outcome E A → Type 0
IsOk (ok a) = Unit
IsOk (err e) = ⊥
IsOk panic = ⊥

abbrev pub IsErr : {E A : Type 0} → Outcome E A → Type 0
IsErr (ok a) = ⊥
IsErr (err e) = Unit
IsErr panic = ⊥
