-- ===== src/Tests/Queues.antt =====
-- src/queue.rs, src/static_queue.rs, src/queue_backend.rs: three submissions through queues of two.
use rust_gpu_driver_lab.Base.{ℕ, ◌≡◌, refl, arith, List, [], ◌∷◌, map, none, returns}
use rust_gpu_driver_lab.Submission.{ValidatedSubmission}
use rust_gpu_driver_lab.Fifo.Order
use rust_gpu_driver_lab.Fifo.Order.{
  Call, Reply, enqueue, dequeue, peek, len, is_full, enqueued, dequeued, peeked, counted, answered,
  map_reply,
}
use rust_gpu_driver_lab.Queue
use rust_gpu_driver_lab.Queue.{CommandQueue, QueueError}
use rust_gpu_driver_lab.Queue.Refines as Heap
use rust_gpu_driver_lab.StaticQueue
use rust_gpu_driver_lab.StaticQueue.{StaticCommandQueue, StaticQueueError}
use rust_gpu_driver_lab.StaticQueue.Refines as Fixed
use rust_gpu_driver_lab.QueueBackend.Instances.{heap_backend, static_backend}
use rust_gpu_driver_lab.QueueBackend.Traces
use rust_gpu_driver_lab.QueueBackend.Traces.{
  heap_run, static_run, IsServedInOrder, heap_run-IsServedInOrder, static_run-IsServedInOrder,
}

abbrev submission : ℕ → ValidatedSubmission
submission id = record {
  buffer_id = 0;
  command = record { id = id; range = record { offset = 0; length = 4 }; priority = 1 };
}

-- A duplicate, a full queue, and a third submission that wraps around.
abbrev calls : List Call
calls =
    enqueue (submission 1)
    ∷ enqueue (submission 1)
    ∷ enqueue (submission 2)
    ∷ enqueue (submission 3)
    ∷ dequeue
    ∷ enqueue (submission 3)
    ∷ peek
    ∷ dequeue
    ∷ dequeue
    ∷ dequeue
    ∷ len
    ∷ is_full
    ∷ []

abbrev heap_queue : CommandQueue
heap_queue = record { capacity = 2; pending = []; active_ids = [] }

abbrev fixed_queue : StaticCommandQueue 2
fixed_queue = record { slots = none ∷ none ∷ []; head = 0; len = 0 }

heap_run_example :
    Traces.run heap_backend heap_queue calls
    ≡ returns (map (map_reply Heap.refusal) (Order.run 2 [] calls))
unfolding Queue.new
heap_run_example = heap_run 2 {q = heap_queue} calls refl

static_run_example :
    Traces.run (static_backend 2) fixed_queue calls
    ≡ returns (map (map_reply Fixed.refusal) (Order.run 2 [] calls))
unfolding StaticQueue.new
static_run_example = static_run 2 {q = fixed_queue} calls (omega arith) refl

heap_run-IsServedInOrder_example :
    (replies : List (Reply QueueError)) × (Traces.run heap_backend heap_queue calls
      ≡ returns replies)
    × IsServedInOrder 2 calls replies
unfolding Queue.new
heap_run-IsServedInOrder_example = heap_run-IsServedInOrder 2 {q = heap_queue} calls refl

static_run-IsServedInOrder_example :
    (replies : List (Reply StaticQueueError)) × (Traces.run (static_backend 2) fixed_queue calls
      ≡ returns replies)
    × IsServedInOrder 2 calls replies
unfolding StaticQueue.new
static_run-IsServedInOrder_example =
    static_run-IsServedInOrder 2 {q = fixed_queue} calls (omega arith) refl
