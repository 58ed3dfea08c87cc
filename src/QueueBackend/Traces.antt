-- ===== src/QueueBackend/Traces.antt =====
-- src/queue_backend.rs: any implementation that keeps the contract, over any sequence of calls.
use rust_gpu_driver_lab.Base.{
  ℕ, ◌≡◌, List, [], ◌∷◌, ◌++◌, length, Run, returns, panicked, and_then, map, refl, ok, usize_max,
  ◌≤◌, arith,
}
use rust_gpu_driver_lab.Submission.{ValidatedSubmission}
use rust_gpu_driver_lab.Fifo
use rust_gpu_driver_lab.Fifo.Order
use rust_gpu_driver_lab.Fifo.Order.{
  Call, enqueue, dequeue, peek, len, is_empty, is_full, Reply, enqueued, dequeued, peeked, counted,
  answered, map_reply,
}
use rust_gpu_driver_lab.Queue
use rust_gpu_driver_lab.Queue.{CommandQueue, QueueError}
use rust_gpu_driver_lab.Queue.Refines as Heap
use rust_gpu_driver_lab.StaticQueue
use rust_gpu_driver_lab.StaticQueue.{StaticCommandQueue, StaticQueueError}
use rust_gpu_driver_lab.StaticQueue.Refines as Fixed
use rust_gpu_driver_lab.QueueBackend.{SubmissionQueue, Contract}
use rust_gpu_driver_lab.QueueBackend.Instances.{
  heap_backend, heap_contract, static_backend, static_contract,
}

abbrev prepend : {E : Type 0} → Reply E → Run (List (Reply E)) → Run (List (Reply E))
prepend r (returns rs) = returns (r ∷ rs)
prepend r panicked = panicked

-- The replies of an implementation to a sequence of calls.
unfoldable pub run :
    (backend : SubmissionQueue) → backend.Queue → List Call → Run (List (Reply backend.Error))
run backend q [] = returns []
run backend q (enqueue s ∷ calls) =
    prepend (enqueued (backend.enqueue q s).1) (run backend (backend.enqueue q s).0 calls)
run backend q (dequeue ∷ calls) =
    and_then (backend.dequeue q) λ (q', o). prepend (dequeued o) (run backend q' calls)
run backend q (peek ∷ calls) =
    and_then (backend.peek q) λ o. prepend (peeked o) (run backend q calls)
run backend q (len ∷ calls) = prepend (counted (backend.len q)) (run backend q calls)
run backend q (is_empty ∷ calls) = prepend (answered (backend.is_empty q)) (run backend q calls)
run backend q (is_full ∷ calls) = prepend (answered (backend.is_full q)) (run backend q calls)

module _ (backend : SubmissionQueue) (contract : Contract backend) where
  -- No sequence of calls tells an implementation from the first-in first-out queue that it
  -- represents, but for the names of the errors; no call panics.
  pub run-Fifo :
      (c : ℕ) (q : backend.Queue) (xs : List ValidatedSubmission) (calls : List Call)
      → contract.Represents c q xs
      → run backend q calls ≡ returns (map (map_reply contract.refusal) (Order.run c xs calls))
  unfolding run Order.run
  run-Fifo c q xs [] r = refl
  run-Fifo c q xs (enqueue s ∷ calls) r =
      rw
        (
          run-Fifo c (backend.enqueue q s).0 (Fifo.enqueue c xs s).0 calls
              (contract.enqueue_state c q xs s r),
          contract.enqueue_result c q xs s r,
        )
        refl
  run-Fifo c q xs (dequeue ∷ calls) r =
      let (q', e, r') = contract.dequeue_returns c q xs r in
      rw (e, run-Fifo c q' (Fifo.dequeue xs).0 calls r') refl
  run-Fifo c q xs (peek ∷ calls) r =
      rw (contract.peek_returns c q xs r, run-Fifo c q xs calls r) refl
  run-Fifo c q xs (len ∷ calls) r = rw (contract.len_length c q xs r, run-Fifo c q xs calls r) refl
  run-Fifo c q xs (is_empty ∷ calls) r =
      rw (contract.is_empty_length c q xs r, run-Fifo c q xs calls r) refl
  run-Fifo c q xs (is_full ∷ calls) r =
      rw (contract.is_full_length c q xs r, run-Fifo c q xs calls r) refl

-- First in, first out: what was handed out is in order the first part of what was accepted, and no more
-- than the capacity is still held back.
abbrev pub IsServedInOrder : {E : Type 0} → ℕ → List Call → List (Reply E) → Type 0
IsServedInOrder c calls replies =
    (held : List ValidatedSubmission) × (Order.accepted calls replies
      ≡ Order.served replies ++ held)
    × (length held ≤ c)

-- The replies of the abstract queue, under any names of the errors.
renamed-IsServedInOrder :
    {E : Type 0} (name : Fifo.Refusal → E) (c : ℕ) (calls : List Call)
    → IsServedInOrder c calls (map (map_reply name) (Order.run c [] calls))
renamed-IsServedInOrder name c calls = (
  Order.final c [] calls,
  rw (Order.accepted-map_reply, Order.served-map_reply) (Order.fifo_accepted-served c [] calls),
  Order.length-final c [] calls (omega arith),
)

-- A new `CommandQueue` answers every sequence of calls as the empty first-in first-out queue of
-- its capacity, but for the names of the errors, and no call panics.
pub heap_run :
    (c : ℕ) {q : CommandQueue} (calls : List Call)
    → Queue.new c ≡ ok q
    → run heap_backend q calls ≡ returns (map (map_reply Heap.refusal) (Order.run c [] calls))
heap_run c {q} calls h =
    run-Fifo heap_backend heap_contract c q [] calls (Heap.new-Represents c h).1

-- A new `StaticCommandQueue`, whose capacity is a `usize`, answers every sequence of calls as the
-- empty first-in first-out queue of its capacity, but for the names of the errors: no index is out
-- of range and no sum overflows.
pub static_run :
    (n : ℕ) {q : StaticCommandQueue n} (calls : List Call)
    → n ≤ usize_max
    → StaticQueue.new n ≡ ok q
    → run (static_backend n) q calls
      ≡ returns (map (map_reply Fixed.refusal) (Order.run n [] calls))
static_run n {q} calls fits h =
    run-Fifo (static_backend n) (static_contract n) n q [] calls
      (record { same_capacity = refl; ring = (Fixed.new-Represents n fits h).1 })

-- Over any sequence of calls a new `CommandQueue` returns every call, and what it hands out is in order
-- the first part of what it accepted; at most the capacity is held back.
pub heap_run-IsServedInOrder :
    (c : ℕ) {q : CommandQueue} (calls : List Call)
    → Queue.new c ≡ ok q
    → (replies : List (Reply QueueError)) × (run heap_backend q calls ≡ returns replies)
      × IsServedInOrder c calls replies
heap_run-IsServedInOrder c calls h = (
  map (map_reply Heap.refusal) (Order.run c [] calls),
  heap_run c calls h,
  renamed-IsServedInOrder Heap.refusal c calls,
)

-- Over any sequence of calls a new `StaticCommandQueue`, whose capacity is a `usize`, returns every
-- call, and what it hands out is in order the first part of what it accepted; at most the capacity is
-- held back.
pub static_run-IsServedInOrder :
    (n : ℕ) {q : StaticCommandQueue n} (calls : List Call)
    → n ≤ usize_max
    → StaticQueue.new n ≡ ok q
    → (replies : List (Reply StaticQueueError)) × (run (static_backend n) q calls ≡ returns replies)
      × IsServedInOrder n calls replies
static_run-IsServedInOrder n calls fits h = (
  map (map_reply Fixed.refusal) (Order.run n [] calls),
  static_run n calls fits h,
  renamed-IsServedInOrder Fixed.refusal n calls,
)
