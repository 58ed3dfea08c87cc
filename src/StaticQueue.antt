-- ===== src/StaticQueue.antt =====
-- src/static_queue.rs: the queue of fixed capacity, a ring of slots. The capacity is in its type.
-- A panic inside a method leaves the queue as it was when the method was called.
pub mod Ring
pub mod Refines
use rust_gpu_driver_lab.Base.{
  ℕ, Bool, true, false, ◌||◌, List, [], ◌∷◌, Option, none, some, ◌==◌, leb, if◌then◌else◌,
  replicate, index, set, set_index, and_then, add_usize, sub_usize, rem_usize, Run, returns,
  panicked, Outcome, ok, err, panic, ◌>>=◌, ◌>>◌, reject_if, commit, call,
}
use rust_gpu_driver_lab.Command.{CommandId}
use rust_gpu_driver_lab.Submission.{ValidatedSubmission}

pub data StaticQueueError : Type 0 where
  zero_capacity : StaticQueueError
  queue_full : (capacity : ℕ) → StaticQueueError
  duplicate_command_id : (id : ℕ) → StaticQueueError

pub record StaticCommandQueue (capacity : ℕ) : Type 0 where
  pub slots : List (Option ValidatedSubmission)
  pub head : ℕ
  pub len : ℕ

unfoldable pub new : (n : ℕ) → Outcome StaticQueueError (StaticCommandQueue n)
new n =
    if n == 0
    then err zero_capacity
    else ok (record { slots = replicate n none; head = 0; len = 0 })

-- `slots.iter().flatten().any(...)`.
abbrev pub any_id : CommandId → List (Option ValidatedSubmission) → Bool
any_id id [] = false
any_id id (none ∷ slots) = any_id id slots
any_id id (some queued ∷ slots) = queued.command.id == id || any_id id slots

module _ {n : ℕ} where
  abbrev pub capacity : StaticCommandQueue n → ℕ
  capacity q = n

  unfoldable pub tail_index : StaticCommandQueue n → Run ℕ
  tail_index q = and_then (sub_usize n q.head) λ distance_to_end.
      if leb distance_to_end q.len then sub_usize q.len distance_to_end else add_usize q.head q.len

  abbrev pub is_empty : StaticCommandQueue n → Bool
  is_empty q = q.len == 0

  abbrev pub is_full : StaticCommandQueue n → Bool
  is_full q = q.len == n

  unfoldable pub enqueue :
      StaticCommandQueue n
      → ValidatedSubmission
      → StaticCommandQueue n × Outcome StaticQueueError (Unit {0})
  unfolding tail_index
  enqueue q submission = commit q do
    let command_id : ℕ = submission.command.id
    reject_if (any_id command_id q.slots) (duplicate_command_id command_id)
    reject_if (is_full q) (queue_full n)
    tail ← call (tail_index q)
    slots ← call (set_index q.slots tail (some submission))
    len ← call (add_usize q.len 1)
    ok (record q { slots = slots; len = len })

  unfoldable pub peek : StaticCommandQueue n → Run (Option ValidatedSubmission)
  peek q = if is_empty q then returns none else index q.slots q.head

  -- `dequeue` once `take` has emptied the head slot, with what stood there.
  abbrev pub advance :
      StaticCommandQueue n
      → Option ValidatedSubmission
      → Run (StaticCommandQueue n × Option ValidatedSubmission)
  advance q none = returns (q, none)
  advance q (some submission) = and_then (add_usize q.head 1) λ next.
      and_then (rem_usize next n) λ head.
        and_then (sub_usize q.len 1)
          λ len. returns (record q { head = head; len = len }, some submission)

  unfoldable pub dequeue :
      StaticCommandQueue n → Run (StaticCommandQueue n × Option ValidatedSubmission)
  dequeue q =
      if is_empty q
      then returns (q, none)
      else and_then (index q.slots q.head) (advance (record q { slots = set q.slots q.head none }))
