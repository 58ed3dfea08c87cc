-- ===== src/UnitTests/FixedQueue.antt =====
-- src/static_queue.rs: its unit tests.
use rust_gpu_driver_lab.Base.{ℕ, ◌≡◌, refl, true, false, none, returns, err}
use rust_gpu_driver_lab.Command
use rust_gpu_driver_lab.Device
use rust_gpu_driver_lab.Device.Buffer
use rust_gpu_driver_lab.Submission
use rust_gpu_driver_lab.Submission.{ValidatedSubmission}
use rust_gpu_driver_lab.StaticQueue.{
  StaticCommandQueue, zero_capacity, queue_full, duplicate_command_id, new, capacity, enqueue,
  dequeue, peek, is_empty, tail_index,
}
use rust_gpu_driver_lab.UnitTests.{Unwrap, UnwrapCall, UnwrapSome, Calling}
use rust_gpu_driver_lab.UnitTests.Requests

abbrev MakeSubmission : ℕ → (ValidatedSubmission → Type 0) → Type 0
MakeSubmission = Requests.MakeSubmission 8

module _ {n : ℕ} where
  -- `queue.enqueue(make_submission(id)).unwrap()`.
  abbrev EnqueueMade : StaticCommandQueue n → ℕ → (StaticCommandQueue n → Type 0) → Type 0
  EnqueueMade queue id rest =
      MakeSubmission id λ s. UnwrapCall (enqueue queue s) λ queue _. rest queue

  -- `queue.dequeue().unwrap()`.
  abbrev DequeueSome :
      StaticCommandQueue n → (StaticCommandQueue n → ValidatedSubmission → Type 0) → Type 0
  DequeueSome queue rest = Calling (dequeue queue) λ (queue, s). UnwrapSome s (rest queue)

  -- `queue.peek().unwrap()`.
  abbrev PeekSome : StaticCommandQueue n → (ValidatedSubmission → Type 0) → Type 0
  PeekSome queue rest = Calling (peek queue) λ s. UnwrapSome s rest

ZeroCapacityIsRejected : Type 0
ZeroCapacityIsRejected = new 0 ≡ err zero_capacity

QueueCapacityReturnConst : Type 0
QueueCapacityReturnConst = Unwrap (new 2) λ queue. capacity queue ≡ 2

QueueIsEmpty : Type 0
QueueIsEmpty = Unwrap (new 2) λ queue. is_empty queue ≡ true

QueueFifoOrderingPreserved : Type 0
QueueFifoOrderingPreserved = Unwrap (new 2) λ queue. EnqueueMade queue 10 λ queue.
    EnqueueMade queue 20 λ queue. DequeueSome queue λ queue first.
      DequeueSome queue
        λ queue second. (first.command.id ≡ 10) × (second.command.id ≡ 20) × (is_empty queue ≡ true)

DuplicateCommandIdIsRejected : Type 0
DuplicateCommandIdIsRejected = Unwrap (new 2) λ queue. EnqueueMade queue 10 λ queue.
    MakeSubmission 10 λ s.
      let (queue, result) = enqueue queue s in
      (result ≡ err (duplicate_command_id 10))
      × (queue.len ≡ 1)
      × (PeekSome queue λ first. first.command.id ≡ 10)

FullQueueRejectsNewSubmission : Type 0
FullQueueRejectsNewSubmission = Unwrap (new 1) λ queue. EnqueueMade queue 10 λ queue.
    MakeSubmission 20 λ s.
      let (queue, result) = enqueue queue s in
      (result ≡ err (queue_full 1))
      × (queue.len ≡ 1)
      × (PeekSome queue λ first. first.command.id ≡ 10)

PeekDoesNotRemoveSubmission : Type 0
PeekDoesNotRemoveSubmission = Unwrap (new 2) λ queue. EnqueueMade queue 7 λ queue.
    PeekSome queue λ first. (first.command.id ≡ 7) × (queue.len ≡ 1) × (is_empty queue ≡ false)

DequeueTransferOwnership : Type 0
DequeueTransferOwnership = Unwrap (new 2) λ queue.
    EnqueueMade queue 7
      λ queue. DequeueSome queue λ queue first. (first.command.id ≡ 7) × (peek queue ≡ returns none)

DequeuedCommandIdCanBeReused : Type 0
DequeuedCommandIdCanBeReused = Unwrap (new 2) λ queue. EnqueueMade queue 7 λ queue.
    DequeueSome queue λ queue first.
      (first.command.id ≡ 7)
      × (EnqueueMade queue 7 λ queue.
          PeekSome queue λ peek_result.
            (peek_result.command.id ≡ 7) × (queue.len ≡ 1) × (is_empty queue ≡ false))

FifoOrderingSurvivesWraparound : Type 0
FifoOrderingSurvivesWraparound = Unwrap (new 3) λ queue. EnqueueMade queue 1 λ queue.
    EnqueueMade queue 2 λ queue. EnqueueMade queue 3 λ queue. DequeueSome queue λ queue first.
      (first.command.id ≡ 1)
      × (EnqueueMade queue 4 λ queue. DequeueSome queue λ queue second.
          DequeueSome queue λ queue third. DequeueSome queue λ queue fourth.
            (second.command.id ≡ 2)
            × (third.command.id ≡ 3)
            × (fourth.command.id ≡ 4)
            × (is_empty queue ≡ true))

-- Every test passes.
tests_pass :
    ZeroCapacityIsRejected × QueueCapacityReturnConst × QueueIsEmpty × QueueFifoOrderingPreserved
    × DuplicateCommandIdIsRejected × FullQueueRejectsNewSubmission × PeekDoesNotRemoveSubmission
    × DequeueTransferOwnership × DequeuedCommandIdCanBeReused × FifoOrderingSurvivesWraparound
unfolding ZeroCapacityIsRejected QueueCapacityReturnConst QueueIsEmpty QueueFifoOrderingPreserved
    DuplicateCommandIdIsRejected FullQueueRejectsNewSubmission PeekDoesNotRemoveSubmission
    DequeueTransferOwnership DequeuedCommandIdCanBeReused FifoOrderingSurvivesWraparound tail_index
    new enqueue dequeue peek Device.allocate_buffer Device.write_buffer Device.initialized_len
    Buffer.write Submission.validate_submission Command.try_from Command.range_end
tests_pass = (
  refl,
  refl,
  refl,
  (refl, refl, refl),
  (refl, refl, refl),
  (refl, refl, refl),
  (refl, refl, refl),
  (refl, refl),
  (refl, (refl, refl, refl)),
  (refl, (refl, refl, refl, refl)),
)
