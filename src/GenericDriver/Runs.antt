-- ===== src/GenericDriver/Runs.antt =====
-- src/generic_driver.rs: any sequence of calls on a driver over a queue that keeps its contract.
use rust_gpu_driver_lab.Base.{ℕ, ◌≡◌, List, [], ◌∷◌, panic}
use rust_gpu_driver_lab.Submission.{ValidatedSubmission, device_info}
use rust_gpu_driver_lab.QueueBackend.{SubmissionQueue, Contract}
use rust_gpu_driver_lab.GenericDriver
use rust_gpu_driver_lab.GenericDriver.{GenericGpuDriver, GenericDriverError, Answer}
use rust_gpu_driver_lab.GenericDriver.Invariant.{IsValid, new-IsValid}
use rust_gpu_driver_lab.GenericDriver.Calls.{Call, apply, apply-Keeps, IsOversized}

module _ (backend : SubmissionQueue) where
  -- The driver after a sequence of calls, whatever each of them returned.
  unfoldable pub run : GenericGpuDriver backend → List Call → GenericGpuDriver backend
  run d [] = d
  run d (call ∷ calls) = run (apply backend d call).0 calls

module _ {backend : SubmissionQueue} (contract : Contract backend) (c : ℕ) where
  run_from :
      (d : GenericGpuDriver backend) (xs : List ValidatedSubmission) (calls : List Call)
      → IsValid contract c d xs
      → (after : List ValidatedSubmission) × IsValid contract c (run backend d calls) after
  unfolding run
  run_from d xs [] v = (xs, v)
  run_from d xs (call ∷ calls) v =
      let k = apply-Keeps contract c d xs v call in
      run_from (apply backend d call).0 k.after calls k.valid

  -- Every driver that calls can make from a new one over an empty queue that keeps the contract is
  -- valid: its device is valid, its firmware is supported, its queue stands for some submissions,
  -- and each of these has a well-formed command whose range lies inside a buffer that exists.
  pub driver_run-IsValid :
      (q : backend.Queue) (calls : List Call)
      → contract.Represents c q []
      → (xs : List ValidatedSubmission) × IsValid contract c
          (run backend (GenericDriver.new backend q) calls)
          xs
  driver_run-IsValid q calls r =
      run_from (GenericDriver.new backend q) [] calls (new-IsValid contract c q r)

  -- On a driver that calls made from a new one over an empty queue that keeps the contract, a call
  -- panics only where it allocates more bytes than a vector can hold.
  pub driver_run-panic :
      (q : backend.Queue) (calls : List Call) (call : Call)
      → contract.Represents c q []
      → (apply backend (run backend (GenericDriver.new backend q) calls) call).1 ≡ panic
      → IsOversized call
  driver_run-panic q calls call r h =
      let (xs, v) = driver_run-IsValid q calls r in
      (apply-Keeps contract c (run backend (GenericDriver.new backend q) calls) xs v call).no_panic
        h
