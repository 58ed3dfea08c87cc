-- ===== src/Tests/Drivers.antt =====
-- src/driver.rs, src/generic_driver.rs, src/typed_generic_driver.rs: drivers over the heap queue.
use rust_gpu_driver_lab.Base.{
  false, none, map, arith, ℕ, ◌+◌, ◌≡◌, ◌<◌, refl, List, [], ◌∷◌, returns, isize_max,
}
use rust_gpu_driver_lab.Command.{RawCommand}
use rust_gpu_driver_lab.DeviceState as Controller
use rust_gpu_driver_lab.DeviceState.{kind, invalid_state}
use rust_gpu_driver_lab.DeviceState.Firmware.{image_of}
use rust_gpu_driver_lab.Device
use rust_gpu_driver_lab.Submission.{ValidatedSubmission}
use rust_gpu_driver_lab.Queue
use rust_gpu_driver_lab.Queue.{CommandQueue, QueueError}
use rust_gpu_driver_lab.Queue.Refines as Heap
use rust_gpu_driver_lab.Fifo.{Refusal}
use rust_gpu_driver_lab.StaticQueue
use rust_gpu_driver_lab.StaticQueue.{StaticCommandQueue}
use rust_gpu_driver_lab.StaticQueue.Refines as Fixed
use rust_gpu_driver_lab.QueueBackend.Instances.{heap_backend, heap_contract, static_backend}
use rust_gpu_driver_lab.GenericDriver
use rust_gpu_driver_lab.GenericDriver.{GenericGpuDriver}
use rust_gpu_driver_lab.GenericDriver.Invariant.{IsValid}
use rust_gpu_driver_lab.GenericDriver.Calls.{
  Call, load_firmware, start, allocate_buffer, write_buffer, submit, apply,
}
use rust_gpu_driver_lab.GenericDriver.Runs.{run, driver_run-IsValid, driver_run-panic}
use rust_gpu_driver_lab.Driver
use rust_gpu_driver_lab.Driver.{SimulatedGpuDriver}
use rust_gpu_driver_lab.GenericDriver.Readiness.{is_ready, finally, unready_queue_is_empty}
use rust_gpu_driver_lab.GenericDriver.Ideal
use rust_gpu_driver_lab.GenericDriver.Traces
use rust_gpu_driver_lab.GenericDriver.Observation.{driver_run-Ideal, queues_indistinguishable}
use rust_gpu_driver_lab.Driver.Traces as Simulated
use rust_gpu_driver_lab.Driver.Traces.{simulated_run-Ideal}

abbrev heap_queue : CommandQueue
heap_queue = record { capacity = 2; pending = []; active_ids = [] }

empty-Represents : Heap.Represents 2 heap_queue []
unfolding Queue.new
empty-Represents = (Heap.new-Represents 2 refl).1

abbrev raw : RawCommand
raw = record { id = 7; offset = 4; length = 4; priority = 2 }

abbrev image : List ℕ
image = image_of 1 5 []

abbrev calls : List Call
calls =
    load_firmware image
    ∷ start
    ∷ allocate_buffer 16
    ∷ write_buffer 0 (1 ∷ 2 ∷ 3 ∷ 4 ∷ 5 ∷ 6 ∷ 7 ∷ 8 ∷ [])
    ∷ submit 0 raw
    ∷ []

driver_run-IsValid_example :
    (xs : List ValidatedSubmission) × IsValid heap_contract 2
      (run heap_backend (GenericDriver.new heap_backend heap_queue) calls)
      xs
driver_run-IsValid_example = driver_run-IsValid heap_contract 2 heap_queue calls empty-Represents

driver_run-panic_example : isize_max < isize_max + 1
unfolding run apply GenericDriver.new GenericDriver.load_firmware GenericDriver.start
    GenericDriver.allocate_buffer Controller.load_firmware Controller.check_image Controller.start
    Controller.ensure_ready Device.allocate_buffer
driver_run-panic_example =
    driver_run-panic heap_contract 2 heap_queue (load_firmware image ∷ start ∷ [])
      (allocate_buffer (isize_max + 1)) empty-Represents refl

abbrev concrete : SimulatedGpuDriver
concrete = record { controller = Controller.default; device = Device.default; queue = heap_queue }

-- A use before the start, two submissions with one identifier, and one of bytes never written.
abbrev driver_calls : List Traces.Call
driver_calls =
    Traces.allocate_buffer 16
    ∷ Traces.load_firmware image
    ∷ Traces.start
    ∷ Traces.allocate_buffer 16
    ∷ Traces.write_buffer 0 (1 ∷ 2 ∷ 3 ∷ 4 ∷ 5 ∷ 6 ∷ 7 ∷ 8 ∷ [])
    ∷ Traces.submit 0 raw
    ∷ Traces.submit 0 raw
    ∷ Traces.submit 0 (record { id = 8; offset = 8; length = 4; priority = 2 })
    ∷ Traces.next_submission
    ∷ Traces.is_queue_empty
    ∷ []

driver_run-Ideal_example :
    Traces.run heap_backend (GenericDriver.new heap_backend heap_queue) driver_calls
    ≡ returns (map (Traces.map_reply Heap.refusal) (Ideal.run 2 Ideal.new driver_calls))
driver_run-Ideal_example = driver_run-Ideal heap_contract 2 heap_queue driver_calls empty-Represents

abbrev fixed_queue : StaticCommandQueue 2
fixed_queue = record { slots = none ∷ none ∷ []; head = 0; len = 0 }

queues_indistinguishable_example :
    (replies : List (Traces.Reply Refusal)) × (Traces.run heap_backend
        (GenericDriver.new heap_backend heap_queue)
        driver_calls
      ≡ returns (map (Traces.map_reply Heap.refusal) replies))
    × (Traces.run (static_backend 2) (GenericDriver.new (static_backend 2) fixed_queue) driver_calls
        ≡ returns (map (Traces.map_reply Fixed.refusal) replies))
unfolding Queue.new StaticQueue.new
queues_indistinguishable_example =
    queues_indistinguishable 2 {h = heap_queue} {s = fixed_queue} driver_calls (omega arith) refl
      refl

abbrev simulated_calls : List Simulated.Call
simulated_calls =
    Simulated.load_firmware image
    ∷ Simulated.start
    ∷ Simulated.allocate_buffer 16
    ∷ Simulated.write_buffer 0 (1 ∷ 2 ∷ 3 ∷ 4 ∷ 5 ∷ 6 ∷ 7 ∷ 8 ∷ [])
    ∷ Simulated.submit 0 raw
    ∷ Simulated.submit 0 raw
    ∷ Simulated.next_submission
    ∷ Simulated.device_state
    ∷ []

simulated_run-Ideal_example :
    map Simulated.to_reply (Simulated.run concrete simulated_calls)
    ≡ map
        (Traces.map_reply Heap.refusal)
        (Ideal.run 2 Ideal.new (map Simulated.to_call simulated_calls))
unfolding Driver.new Queue.new
simulated_run-Ideal_example = simulated_run-Ideal 2 {d = concrete} simulated_calls refl

-- The submission is refused before the start.
abbrev early_calls : List Traces.Call
early_calls = Traces.load_firmware image ∷ Traces.submit 0 raw ∷ []

unready_queue_is_empty_example :
    (e : GenericGpuDriver heap_backend) × (finally heap_backend
        (GenericDriver.new heap_backend heap_queue)
        early_calls
      ≡ returns e)
    × (is_ready e.controller.state ≡ false
        → (GenericDriver.queued_len heap_backend e ≡ 0)
          × (GenericDriver.peek_submission heap_backend e ≡ returns none))
unready_queue_is_empty_example =
    unready_queue_is_empty heap_contract 2 heap_queue early_calls empty-Represents
