-- ===== src/Queue/Refines.antt =====
-- src/queue.rs: a `CommandQueue` behaves as the first-in first-out queue of what is pending in it.
use rust_gpu_driver_lab.Base.{
  ℕ, ◌≡◌, ◌≢◌, ◌≤◌, List, [], ◌∷◌, length, arith, refl, ok, map_err, ap, ==_iff,
}
use rust_gpu_driver_lab.Base.HashSet
use rust_gpu_driver_lab.Base.HashSet.{contains-insert, contains-remove}
use rust_gpu_driver_lab.Command.{CommandId}
use rust_gpu_driver_lab.Submission.{ValidatedSubmission}
use rust_gpu_driver_lab.Fifo
use rust_gpu_driver_lab.Fifo.{Refusal, duplicate, full, command_id, has_id}
use rust_gpu_driver_lab.Fifo.Unique.{IsUnique, has_id-append, enqueue-IsUnique, length-enqueue}
use rust_gpu_driver_lab.Queue
use rust_gpu_driver_lab.Queue.{CommandQueue, QueueError, queue_full, duplicate_command_id, pop}

-- The queue stands for `xs`: those are pending, and the set holds exactly their identifiers.
pub record Represents (capacity : ℕ) (q : CommandQueue) (xs : List ValidatedSubmission)
    : Type 0 where
  pub same_capacity : q.capacity ≡ capacity
  pub same_pending : q.pending ≡ xs
  pub ids_active : (k : CommandId) → HashSet.contains k q.active_ids ≡ has_id k xs
  pub unique : IsUnique xs
  pub bounded : length xs ≤ capacity

abbrev pub refusal : Refusal → QueueError
refusal (duplicate id) = duplicate_command_id id
refusal (full capacity) = queue_full capacity

module _ (c : ℕ) (q : CommandQueue) (xs : List ValidatedSubmission) (s : ValidatedSubmission)
    (r : Represents c q xs) where
  pub enqueue_result : (Queue.enqueue q s).1 ≡ map_err refusal (Fifo.enqueue c xs s).1
  unfolding Queue.enqueue Fifo.enqueue
  enqueue_result = ground (arith, r.ids_active (command_id s), r.same_pending, r.same_capacity)

  pub enqueue_state : Represents c (Queue.enqueue q s).0 (Fifo.enqueue c xs s).0
  unfolding Queue.enqueue Fifo.enqueue
  enqueue_state =
      let no_new = r.ids_active (command_id s) in
      record {
        same_capacity = ground (arith, no_new, r.same_pending, r.same_capacity);
        same_pending = ground (arith, no_new, r.same_pending, r.same_capacity);
        ids_active = λ k. ground (
          arith,
          no_new,
          r.same_pending,
          r.same_capacity,
          r.ids_active k,
          contains-insert (command_id s) k q.active_ids,
          has_id-append k xs s,
        );
        unique = enqueue-IsUnique c xs s r.unique;
        bounded = length-enqueue c xs s r.bounded;
      }

module _ (c : ℕ) (q : CommandQueue) where
  pub dequeue_result :
      (xs : List ValidatedSubmission)
      → Represents c q xs
      → (Queue.dequeue q).1 ≡ (Fifo.dequeue xs).1
  unfolding Queue.dequeue Fifo.dequeue
  dequeue_result [] r = rw r.same_pending
  dequeue_result (x ∷ xs) r = rw r.same_pending

  pub dequeue_state :
      (xs : List ValidatedSubmission)
      → Represents c q xs
      → Represents c (Queue.dequeue q).0 (Fifo.dequeue xs).0
  unfolding Queue.dequeue Fifo.dequeue
  dequeue_state [] r = simp r.same_pending r
  dequeue_state (x ∷ xs) r = rw r.same_pending (record {
    same_capacity = r.same_capacity;
    same_pending = refl;
    ids_active = λ k. ground (
      arith,
      contains-remove (command_id x) k q.active_ids,
      r.ids_active k,
      ==_iff (command_id x) k,
      ap (λ (j : CommandId). has_id j xs) {x = command_id x} {y = k},
      r.unique.0,
    );
    unique = r.unique.1;
    bounded = omega (arith, r.bounded);
  })

  pub peek_result :
      (xs : List ValidatedSubmission) → Represents c q xs → Queue.peek q ≡ Fifo.peek xs
  unfolding Queue.peek
  peek_result [] r = rw r.same_pending
  peek_result (x ∷ xs) r = rw r.same_pending

-- A new queue is empty and of the capacity asked for, which is not zero.
pub new-Represents : (c : ℕ) {q : CommandQueue} → Queue.new c ≡ ok q → (c ≢ 0) × Represents c q []
unfolding Queue.new
new-Represents c h = (
  ground arith,
  record {
    same_capacity = ground arith;
    same_pending = ground arith;
    ids_active = λ k. ground arith;
    unique = tt;
    bounded = omega arith;
  },
)
