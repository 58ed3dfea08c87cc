-- ===== src/Fifo.antt =====
-- What the queues of src/queue.rs and src/static_queue.rs promise, with no representation: a bounded
-- first-in first-out queue that holds no two commands with one identifier. Oldest first.
pub mod Order
pub mod Unique
use rust_gpu_driver_lab.Base.{
  ℕ, Bool, true, false, ◌||◌, List, [], ◌∷◌, ◌++◌, Option, none, some, ◌==◌, if◌then◌else◌, length,
  Outcome, ok, err,
}
use rust_gpu_driver_lab.Command.{CommandId}
use rust_gpu_driver_lab.Submission.{ValidatedSubmission}

pub data Refusal : Type 0 where
  duplicate : CommandId → Refusal
  full : (capacity : ℕ) → Refusal

abbrev pub command_id : ValidatedSubmission → CommandId
command_id s = s.command.id

abbrev pub has_id : CommandId → List ValidatedSubmission → Bool
has_id k [] = false
has_id k (s ∷ xs) = command_id s == k || has_id k xs

unfoldable pub enqueue :
    ℕ
    → List ValidatedSubmission
    → ValidatedSubmission
    → List ValidatedSubmission × Outcome Refusal (Unit {0})
enqueue capacity xs s =
    if has_id (command_id s) xs
    then (xs, err (duplicate (command_id s)))
    else if length xs == capacity
    then (xs, err (full capacity))
    else (xs ++ (s ∷ []), ok tt)

unfoldable pub dequeue :
    List ValidatedSubmission → List ValidatedSubmission × Option ValidatedSubmission
dequeue [] = ([], none)
dequeue (s ∷ xs) = (xs, some s)

abbrev pub peek : List ValidatedSubmission → Option ValidatedSubmission
peek [] = none
peek (s ∷ xs) = some s
