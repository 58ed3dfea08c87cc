-- ===== src/QueueBackend/Instances.antt =====
-- src/queue_backend.rs: the two implementations of the trait, and that both keep the contract.
use rust_gpu_driver_lab.Base.{ℕ, returns, ap, ◌==◌, ◌≡◌, length, List, Option, map_err, sym}
use rust_gpu_driver_lab.Fifo
use rust_gpu_driver_lab.Submission.{ValidatedSubmission}
use rust_gpu_driver_lab.Queue
use rust_gpu_driver_lab.Queue.{CommandQueue, QueueError}
use rust_gpu_driver_lab.Queue.Refines as Heap
use rust_gpu_driver_lab.StaticQueue
use rust_gpu_driver_lab.StaticQueue.{StaticCommandQueue, StaticQueueError}
use rust_gpu_driver_lab.StaticQueue.Ring
use rust_gpu_driver_lab.StaticQueue.Refines as Fixed
use rust_gpu_driver_lab.QueueBackend.{SubmissionQueue, Contract}

-- `impl SubmissionQueue for CommandQueue`.
abbrev pub heap_backend : SubmissionQueue
heap_backend = record {
  Queue = CommandQueue;
  Error = QueueError;
  enqueue = Queue.enqueue;
  dequeue = λ q. returns (Queue.dequeue q);
  peek = λ q. returns (Queue.peek q);
  len = Queue.len;
  is_empty = Queue.is_empty;
  is_full = Queue.is_full;
}

-- `impl<const N: usize> SubmissionQueue for StaticCommandQueue<N>`.
abbrev pub static_backend : ℕ → SubmissionQueue
static_backend n = record {
  Queue = StaticCommandQueue n;
  Error = StaticQueueError;
  enqueue = StaticQueue.enqueue;
  dequeue = StaticQueue.dequeue;
  peek = StaticQueue.peek;
  len = λ q. q.len;
  is_empty = StaticQueue.is_empty;
  is_full = StaticQueue.is_full;
}

module _ (c : ℕ) (q : CommandQueue) (xs : List ValidatedSubmission)
    (r : Heap.Represents c q xs) where
  pub heap_dequeue :
      (q' : CommandQueue) × (heap_backend.dequeue q ≡ returns (q', (Fifo.dequeue xs).1))
      × Heap.Represents c q' (Fifo.dequeue xs).0
  heap_dequeue = (
    (Queue.dequeue q).0,
    ap (λ (o : Option ValidatedSubmission). returns ((Queue.dequeue q).0, o))
        (Heap.dequeue_result c q xs r),
    Heap.dequeue_state c q xs r,
  )

  pub heap_len : heap_backend.len q ≡ length xs
  heap_len = ap length r.same_pending

  pub heap_is_empty : heap_backend.is_empty q ≡ (length xs == 0)
  heap_is_empty = ap (λ (p : List ValidatedSubmission). length p == 0) r.same_pending

  pub heap_is_full : heap_backend.is_full q ≡ (length xs == c)
  heap_is_full = rw (r.same_pending, r.same_capacity)

-- `CommandQueue` keeps the contract.
abbrev pub heap_contract : Contract heap_backend
heap_contract = record {
  refusal = Heap.refusal;
  Represents = Heap.Represents;
  enqueue_state = Heap.enqueue_state;
  enqueue_result = Heap.enqueue_result;
  dequeue_returns = heap_dequeue;
  peek_returns = λ c q xs r. ap returns (Heap.peek_result c q xs r);
  len_length = heap_len;
  is_empty_length = heap_is_empty;
  is_full_length = heap_is_full;
}

-- A ring represents queues of the capacity in its type only.
pub record IsRing {n : ℕ} (c : ℕ) (q : StaticCommandQueue n) (xs : List ValidatedSubmission)
    : Type 0 where
  pub same_capacity : c ≡ n
  pub ring : Ring.Represents q xs

module _ {n : ℕ} (c : ℕ) (q : StaticCommandQueue n) (xs : List ValidatedSubmission) where
  pub static_enqueue_state :
      (s : ValidatedSubmission)
      → IsRing c q xs
      → IsRing c (StaticQueue.enqueue q s).0 (Fifo.enqueue c xs s).0
  static_enqueue_state s r = record {
    same_capacity = r.same_capacity;
    ring = rw r.same_capacity (Fixed.enqueue_state q xs s r.ring);
  }

  pub static_enqueue_result :
      (s : ValidatedSubmission)
      → IsRing c q xs
      → (StaticQueue.enqueue q s).1 ≡ map_err Fixed.refusal (Fifo.enqueue c xs s).1
  static_enqueue_result s r = rw r.same_capacity (Fixed.enqueue_result q xs s r.ring)

  pub static_dequeue :
      IsRing c q xs
      → (q' : StaticCommandQueue n) × (StaticQueue.dequeue q ≡ returns (q', (Fifo.dequeue xs).1))
        × IsRing c q' (Fifo.dequeue xs).0
  static_dequeue r =
      let (q', e, ring) = Fixed.dequeue_lem q xs r.ring in
      (q', e, record { same_capacity = r.same_capacity; ring = ring })

  pub static_is_empty : IsRing c q xs → StaticQueue.is_empty q ≡ (length xs == 0)
  static_is_empty r = rw r.ring.length_len

  pub static_is_full : IsRing c q xs → StaticQueue.is_full q ≡ (length xs == c)
  static_is_full r = rw (r.ring.length_len, r.same_capacity)

-- `StaticCommandQueue<N>` keeps the contract.
abbrev pub static_contract : (n : ℕ) → Contract (static_backend n)
static_contract n = record {
  refusal = Fixed.refusal;
  Represents = IsRing;
  enqueue_state = static_enqueue_state;
  enqueue_result = static_enqueue_result;
  dequeue_returns = static_dequeue;
  peek_returns = λ c q xs r. Fixed.peek_lem q xs r.ring;
  len_length = λ c q xs r. sym r.ring.length_len;
  is_empty_length = static_is_empty;
  is_full_length = static_is_full;
}
