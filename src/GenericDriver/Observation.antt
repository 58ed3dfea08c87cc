-- ===== src/GenericDriver/Observation.antt =====
-- src/generic_driver.rs: what can be observed of a driver, over any sequence of calls.
use rust_gpu_driver_lab.Base.{ℕ, ◌≡◌, ◌≤◌, List, [], ◌∷◌, map, refl, ok, returns, usize_max}
use rust_gpu_driver_lab.Device.Invariant.{IsValid, default-IsValid}
use rust_gpu_driver_lab.Submission.{ValidatedSubmission}
use rust_gpu_driver_lab.Fifo.{Refusal}
use rust_gpu_driver_lab.Queue
use rust_gpu_driver_lab.Queue.{CommandQueue}
use rust_gpu_driver_lab.Queue.Refines as Heap
use rust_gpu_driver_lab.StaticQueue
use rust_gpu_driver_lab.StaticQueue.{StaticCommandQueue}
use rust_gpu_driver_lab.StaticQueue.Refines as Fixed
use rust_gpu_driver_lab.QueueBackend.{SubmissionQueue, Contract}
use rust_gpu_driver_lab.QueueBackend.Instances.{
  heap_backend, heap_contract, static_backend, static_contract,
}
use rust_gpu_driver_lab.GenericDriver
use rust_gpu_driver_lab.GenericDriver.{GenericGpuDriver}
use rust_gpu_driver_lab.GenericDriver.Ideal
use rust_gpu_driver_lab.GenericDriver.Traces
use rust_gpu_driver_lab.GenericDriver.Traces.{Call, Reply, map_reply}
use rust_gpu_driver_lab.GenericDriver.Agreement.{ideal}
use rust_gpu_driver_lab.GenericDriver.Refines.{step-Agrees}

module _ {backend : SubmissionQueue} (contract : Contract backend) (c : ℕ) where
  run_from :
      (d : GenericGpuDriver backend) (xs : List ValidatedSubmission) (calls : List Call)
      → IsValid d.device
      → contract.Represents c d.queue xs
      → Traces.run backend d calls
        ≡ returns (map (map_reply contract.refusal) (Ideal.run c (ideal contract c d xs) calls))
  unfolding Traces.run Ideal.run
  run_from d xs [] v r = refl
  run_from d xs (call ∷ calls) v r =
      let step = step-Agrees contract c d xs v r call in
      rw (step.returned, step.stands, run_from step.next step.left calls step.valid step.queued)
        refl

  -- A new driver over an empty queue that keeps its contract answers every sequence of calls as the
  -- ideal driver, but for the names of the queue's errors: the same controller and validation, a memory with an
  -- address space for each buffer, and a bounded first-in first-out list of submissions. No queue
  -- panics.
  pub driver_run-Ideal :
      (q : backend.Queue) (calls : List Call)
      → contract.Represents c q []
      → Traces.run backend (GenericDriver.new backend q) calls
        ≡ returns (map (map_reply contract.refusal) (Ideal.run c Ideal.new calls))
  unfolding GenericDriver.new
  driver_run-Ideal q calls r = run_from (GenericDriver.new backend q) [] calls default-IsValid r

-- A client cannot tell a driver over a `StaticCommandQueue<N>` from one over a `CommandQueue` of
-- capacity `N`: up to the names of the queues' errors, new drivers give the same replies to every
-- sequence of calls.
pub queues_indistinguishable :
    (n : ℕ) {h : CommandQueue} {s : StaticCommandQueue n} (calls : List Call)
    → n ≤ usize_max
    → Queue.new n ≡ ok h
    → StaticQueue.new n ≡ ok s
    → (replies : List (Reply Refusal)) × (Traces.run heap_backend
          (GenericDriver.new heap_backend h)
          calls
        ≡ returns (map (map_reply Heap.refusal) replies))
      × (Traces.run (static_backend n) (GenericDriver.new (static_backend n) s) calls
          ≡ returns (map (map_reply Fixed.refusal) replies))
queues_indistinguishable n {h} {s} calls fits made_h made_s = (
  Ideal.run n Ideal.new calls,
  driver_run-Ideal heap_contract n h calls (Heap.new-Represents n made_h).1,
  driver_run-Ideal (static_contract n) n s calls
      (record { same_capacity = refl; ring = (Fixed.new-Represents n fits made_s).1 }),
)
