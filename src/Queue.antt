-- ===== src/Queue.antt =====
-- src/queue.rs: the queue that grows on the heap, with a set of the identifiers in it.
pub mod Refines
use rust_gpu_driver_lab.Base.{
  ◌*◌, leb, Run, returns, panicked, call, ◌>>=◌, isize_max, ℕ, Bool, List, [], ◌∷◌, ◌++◌, Option,
  none, some, ◌==◌, length, Outcome, ok, err, ◌>>=◌, ◌>>◌, reject_if, commit, if◌then◌else◌,
}
use rust_gpu_driver_lab.Base.HashSet
use rust_gpu_driver_lab.Command.{CommandId}
use rust_gpu_driver_lab.Submission.{ValidatedSubmission}

pub data QueueError : Type 0 where
  zero_capacity : QueueError
  queue_full : (capacity : ℕ) → QueueError
  duplicate_command_id : CommandId → QueueError

pub record CommandQueue : Type 0 where
  pub capacity : ℕ
  pub pending : List ValidatedSubmission
  pub active_ids : List CommandId

-- `size_of::<ValidatedSubmission>()` where a `u64` is aligned to 8 bytes: 25 bytes of a command padded
-- to 32, and 4 of an identifier, padded again.
abbrev pub submission_size : ℕ
submission_size = 40

-- `VecDeque::with_capacity`, which panics past the longest allocation.
abbrev pub with_capacity : ℕ → Run (List ValidatedSubmission)
with_capacity capacity = if leb (capacity * submission_size) isize_max then returns [] else panicked

unfoldable pub new : ℕ → Outcome QueueError CommandQueue
new capacity = do
  reject_if (capacity == 0) zero_capacity
  pending ← call (with_capacity capacity)
  ok (record { capacity = capacity; pending = pending; active_ids = [] })

abbrev pub len : CommandQueue → ℕ
len q = length q.pending

abbrev pub is_empty : CommandQueue → Bool
is_empty q = length q.pending == 0

abbrev pub is_full : CommandQueue → Bool
is_full q = length q.pending == q.capacity

abbrev pub contains_command : CommandQueue → CommandId → Bool
contains_command q id = HashSet.contains id q.active_ids

unfoldable pub enqueue :
    CommandQueue → ValidatedSubmission → CommandQueue × Outcome QueueError (Unit {0})
enqueue q submission = commit q do
  let cmd_id : CommandId = submission.command.id
  reject_if (contains_command q cmd_id) (duplicate_command_id cmd_id)
  reject_if (is_full q) (queue_full q.capacity)
  ok (record q {
    active_ids = HashSet.insert cmd_id q.active_ids;
    pending = q.pending ++ (submission ∷ []);
  })

-- `dequeue` once `pop_front` has answered.
abbrev pop : CommandQueue → List ValidatedSubmission → CommandQueue × Option ValidatedSubmission
pop q [] = (q, none)
pop q (submission ∷ rest) = (
  record q { pending = rest; active_ids = HashSet.remove submission.command.id q.active_ids },
  some submission,
)

unfoldable pub dequeue : CommandQueue → CommandQueue × Option ValidatedSubmission
dequeue q = pop q q.pending

-- `VecDeque::front`.
abbrev pub front : List ValidatedSubmission → Option ValidatedSubmission
front [] = none
front (submission ∷ rest) = some submission

unfoldable pub peek : CommandQueue → Option ValidatedSubmission
peek q = front q.pending
