-- ===== src/UnitTests/HeapQueue.antt =====
-- src/queue.rs: its unit tests.
use rust_gpu_driver_lab.Base.{ℕ, ◌≡◌, refl, true, false, none, err}
use rust_gpu_driver_lab.Command
use rust_gpu_driver_lab.Device
use rust_gpu_driver_lab.Device.Buffer
use rust_gpu_driver_lab.Submission
use rust_gpu_driver_lab.Submission.{ValidatedSubmission}
use rust_gpu_driver_lab.Queue.{
  CommandQueue, zero_capacity, queue_full, duplicate_command_id, new, enqueue, dequeue, peek, len,
  is_empty, is_full, contains_command,
}
use rust_gpu_driver_lab.UnitTests.{Unwrap, UnwrapCall, UnwrapSome, IsOk, IsErr}
use rust_gpu_driver_lab.UnitTests.Requests

abbrev MakeSubmission : ℕ → (ValidatedSubmission → Type 0) → Type 0
MakeSubmission = Requests.MakeSubmission 16

-- `queue.enqueue(make_submission(id)).unwrap()`.
abbrev EnqueueMade : CommandQueue → ℕ → (CommandQueue → Type 0) → Type 0
EnqueueMade queue id rest =
    MakeSubmission id λ s. UnwrapCall (enqueue queue s) λ queue _. rest queue

-- `queue.dequeue().unwrap()`.
abbrev DequeueSome : CommandQueue → (CommandQueue → ValidatedSubmission → Type 0) → Type 0
DequeueSome queue rest = let (queue, s) = dequeue queue in UnwrapSome s (rest queue)

ZeroCapacityIsRejected : Type 0
ZeroCapacityIsRejected = new 0 ≡ err zero_capacity

QueueProcessesSubmissionsInFifoOrder : Type 0
QueueProcessesSubmissionsInFifoOrder = Unwrap (new 2) λ queue. EnqueueMade queue 10 λ queue.
    EnqueueMade queue 20 λ queue. DequeueSome queue λ queue first.
      DequeueSome queue
        λ queue second. (first.command.id ≡ 10) × (second.command.id ≡ 20) × (is_empty queue ≡ true)

DuplicateCommandIdIsRejected : Type 0
DuplicateCommandIdIsRejected = Unwrap (new 3) λ queue. EnqueueMade queue 10 λ queue.
    MakeSubmission 10 λ s.
      let (queue, result) = enqueue queue s in
      (Unwrap (Command.new_command_id 10) λ id. result ≡ err (duplicate_command_id id))
      × (len queue ≡ 1)

FullQueueRejectsNewSubmission : Type 0
FullQueueRejectsNewSubmission = Unwrap (new 1) λ queue. EnqueueMade queue 10 λ queue.
    MakeSubmission 20 λ s.
      let (queue, result) = enqueue queue s in
      (result ≡ err (queue_full 1))
      × (len queue ≡ 1)
      × (UnwrapSome (peek queue) λ first. first.command.id ≡ 10)

DequeuedCommandIdCanBeReused : Type 0
DequeuedCommandIdCanBeReused = Unwrap (new 1) λ queue. EnqueueMade queue 10 λ queue.
    DequeueSome queue λ queue _.
      (Unwrap (Command.new_command_id 10) λ id. contains_command queue id ≡ false)
      × (MakeSubmission 10 λ s. IsOk (enqueue queue s).1)

PeekDoesNotRemoveSubmission : Type 0
PeekDoesNotRemoveSubmission = Unwrap (new 2) λ queue. EnqueueMade queue 7 λ queue.
    UnwrapSome (peek queue)
      λ first_view. (first_view.command.id ≡ 7) × (len queue ≡ 1) × (is_empty queue ≡ false)

DequeueFromEmptyQueueReturnsNone : Type 0
DequeueFromEmptyQueueReturnsNone = Unwrap (new 1) λ queue. (dequeue queue).1 ≡ none

DuplicateEnqueueDoesNotMakeQueueFull : Type 0
DuplicateEnqueueDoesNotMakeQueueFull = Unwrap (new 2) λ queue. MakeSubmission 10 λ s.
    let (queue, result) = enqueue queue s in
    IsOk result
    × (MakeSubmission 10
        λ s. let (queue, result) = enqueue queue s in IsErr result × (is_full queue ≡ false))

-- Every test passes.
tests_pass :
    ZeroCapacityIsRejected × QueueProcessesSubmissionsInFifoOrder × DuplicateCommandIdIsRejected
    × FullQueueRejectsNewSubmission × DequeuedCommandIdCanBeReused × PeekDoesNotRemoveSubmission
    × DequeueFromEmptyQueueReturnsNone × DuplicateEnqueueDoesNotMakeQueueFull
unfolding ZeroCapacityIsRejected QueueProcessesSubmissionsInFifoOrder DuplicateCommandIdIsRejected
    FullQueueRejectsNewSubmission DequeuedCommandIdCanBeReused PeekDoesNotRemoveSubmission
    DequeueFromEmptyQueueReturnsNone DuplicateEnqueueDoesNotMakeQueueFull Command.new_command_id new
    enqueue dequeue peek Device.allocate_buffer Device.write_buffer Device.initialized_len
    Buffer.write Submission.validate_submission Command.try_from Command.range_end
tests_pass = (
  refl,
  (refl, refl, refl),
  (refl, refl),
  (refl, refl, refl),
  (refl, tt),
  (refl, refl, refl),
  refl,
  (tt, (tt, refl)),
)
