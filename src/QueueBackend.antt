-- ===== src/QueueBackend.antt =====
-- src/queue_backend.rs: the trait `SubmissionQueue`, its two implementations, and the contract that
-- a generic driver may rely on.
pub mod Instances
pub mod Traces
use rust_gpu_driver_lab.Base.{
  ℕ, Bool, ◌≡◌, ◌==◌, List, Option, length, Run, returns, Outcome, map_err,
}
use rust_gpu_driver_lab.Submission.{ValidatedSubmission}
use rust_gpu_driver_lab.Fifo
use rust_gpu_driver_lab.Fifo.{Refusal}

-- The trait. Its implementations may be in other crates.
pub record SubmissionQueue : Type 1 where
  pub Queue : Type 0
  pub Error : Type 0
  pub enqueue : Queue → ValidatedSubmission → Queue × Outcome Error (Unit {0})
  pub dequeue : Queue → Run (Queue × Option ValidatedSubmission)
  pub peek : Queue → Run (Option ValidatedSubmission)
  pub len : Queue → ℕ
  pub is_empty : Queue → Bool
  pub is_full : Queue → Bool

-- What an implementation owes: its queues stand for first-in first-out queues of one capacity.
pub record Contract (backend : SubmissionQueue) : Type 1 where
  pub refusal : Refusal → backend.Error
  pub Represents : ℕ → backend.Queue → List ValidatedSubmission → Type 0
  pub enqueue_state :
      (c : ℕ) (q : backend.Queue) (xs : List ValidatedSubmission) (s : ValidatedSubmission)
      → Represents c q xs
      → Represents c (backend.enqueue q s).0 (Fifo.enqueue c xs s).0
  pub enqueue_result :
      (c : ℕ) (q : backend.Queue) (xs : List ValidatedSubmission) (s : ValidatedSubmission)
      → Represents c q xs
      → (backend.enqueue q s).1 ≡ map_err refusal (Fifo.enqueue c xs s).1
  pub dequeue_returns :
      (c : ℕ) (q : backend.Queue) (xs : List ValidatedSubmission)
      → Represents c q xs
      → (q' : backend.Queue) × (backend.dequeue q ≡ returns (q', (Fifo.dequeue xs).1))
        × Represents c q' (Fifo.dequeue xs).0
  pub peek_returns :
      (c : ℕ) (q : backend.Queue) (xs : List ValidatedSubmission)
      → Represents c q xs
      → backend.peek q ≡ returns (Fifo.peek xs)
  pub len_length :
      (c : ℕ) (q : backend.Queue) (xs : List ValidatedSubmission)
      → Represents c q xs
      → backend.len q ≡ length xs
  pub is_empty_length :
      (c : ℕ) (q : backend.Queue) (xs : List ValidatedSubmission)
      → Represents c q xs
      → backend.is_empty q ≡ (length xs == 0)
  pub is_full_length :
      (c : ℕ) (q : backend.Queue) (xs : List ValidatedSubmission)
      → Represents c q xs
      → backend.is_full q ≡ (length xs == c)
