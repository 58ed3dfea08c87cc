-- ===== src/Lib.antt =====
-- A model of the user-space GPU driver of this repository, and what is proved of it.
--
-- The program simulates a device with buffers, a lifecycle and a queue of commands, and wraps them
-- in drivers; beside that it has typed access to memory-mapped registers. The files follow its
-- parts:
--
--   Device, Device/Buffer         src/lib.rs: the buffers and the map from identifiers to them
--   Device/Memory                 what a device promises: for each buffer an address space and a limit
--   Command                       src/command.rs: raw commands and their validation
--   DeviceState                   src/device_state.rs: the controller's states and transitions
--   Submission                    src/submission.rs: a command checked against the buffer it names
--   Queue, StaticQueue            src/queue.rs, src/static_queue.rs: the two queues
--   QueueBackend                  src/queue_backend.rs: the trait, as a record of operations
--   Fifo                          what a queue promises: first in, first out, bounded, no duplicates
--   GenericDriver, Driver         src/generic_driver.rs, src/driver.rs: lifecycle, buffers and queue
--   GenericDriver/Ideal           what a driver promises: a lifecycle, a device and a bounded list
--   TypedDriver, TypedGenericDriver, SubmissionSession
--                                 src/typed_driver.rs, src/typed_generic_driver.rs,
--                                 src/submission_session.rs: the lifecycle state in the type
--   Mmio, Registers               src/mmio.rs, src/registers.rs: a region of 32-bit registers
--   RegisterFields, Interrupts    src/register_fields.rs, src/interrupts.rs: fields and events
--   RegisterFile                  the accessors of a block over sequences of calls, against five words
--   Polling                       src/polling.rs: waiting for the device with a timeout
--   Base                          machine arithmetic, outcomes, lists, maps and the bit operations
--   UnitTests                     the tests of every source file, which the model passes
--   Tests                         the theorems at concrete inputs
--
-- A method that takes `&mut self` is a function from the state to the state that it leaves and its
-- result; names are those of the source. A result is `Outcome`: `ok`, `err`, or `panic` where the
-- code would panic (an index out of range, an overflowing sum, a vector longer than `isize::MAX`
-- bytes). A trait is a record of operations; an implementation outside the crate is a parameter. A
-- state marker is an index of the type, and a sealed trait over markers is an indexed data type.
--
-- Integers are natural numbers with the bounds of their type written out where the code can reach
-- them: `usize` has 64 bits, arithmetic is checked, and `<<` and `!` on `u32` stay inside 32 bits.
--
-- A method whose checks all stand before its first write is written with `commit`, which stores the
-- new state only once the checks have passed; that such a method changes nothing when it fails is
-- part of how it is written down. Where the source writes before it may fail, as `allocate_buffer`
-- does with its counter, the state is passed on explicitly. A `CommandQueue` whose `VecDeque` would
-- be longer than `isize::MAX` bytes panics when it is made; a submission takes 40 bytes.
--
-- The queues are compared with `Fifo` over whole sequences of calls: `QueueBackend.Contract` is
-- what an implementation owes, `QueueBackend/Instances` shows it for both, and the drivers use only
-- the contract. The modules named Traces run a component's public methods over a sequence of calls
-- and keep what the caller sees of each. `Device/Memory` and `RegisterFile/Cells` describe the same
-- replies independently of the code. `GenericDriver/Ideal` does so for the buffers, the queue and
-- what needs a ready device; it uses the code's own controller and validation, whose properties are
-- those of DeviceState and Submission.
--
-- The loop of `wait_until_ready` runs on a number of passes; one more pass than the timeout has
-- intervals is shown to be enough, for a timer whose sleeps last as long as asked. The clock of the
-- operating system is a parameter of `HostPollTimer`, and `IsMonotonic` states what its
-- documentation promises.
--
-- A unit test is the type of what it asserts after its calls, where `unwrap` goes on with the
-- value. The arrays of the tests of registers stand at address 64.
--
-- `Polling/InTime` takes a timer whose sleeps are exact, `Polling/Sleeps` one that logs them.
--
-- Not modelled: formatting and other derived implementations, lifetimes and borrows (a borrowed
-- value is passed through), failures of the allocator, and the order of volatile accesses between
-- threads.
pub mod Base
pub mod Command
pub mod DeviceState
pub mod Device
pub mod Submission
pub mod Fifo
pub mod Queue
pub mod StaticQueue
pub mod QueueBackend
pub mod GenericDriver
pub mod Driver
pub mod TypedDriver
pub mod TypedGenericDriver
pub mod SubmissionSession
pub mod Mmio
pub mod Registers
pub mod RegisterFields
pub mod RegisterFile
pub mod Interrupts
pub mod Polling
pub mod Tests
pub mod UnitTests
