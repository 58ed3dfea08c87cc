-- ===== src/Tests/TypedDrivers.antt =====
-- src/typed_driver.rs, src/typed_generic_driver.rs: typed drivers over the heap queue.
use rust_gpu_driver_lab.Base.{map, returns, ℕ, ◌≡◌, ◌≢◌, refl, List, [], ◌∷◌, ok, err}
use rust_gpu_driver_lab.Command.{RawCommand}
use rust_gpu_driver_lab.DeviceState as Controller
use rust_gpu_driver_lab.DeviceState.{kind, invalid_state}
use rust_gpu_driver_lab.DeviceState.Firmware.{image_of}
use rust_gpu_driver_lab.Device
use rust_gpu_driver_lab.Queue
use rust_gpu_driver_lab.Queue.{CommandQueue, QueueError}
use rust_gpu_driver_lab.QueueBackend.Instances.{heap_backend, heap_contract}
use rust_gpu_driver_lab.GenericDriver
use rust_gpu_driver_lab.GenericDriver.{GenericGpuDriver, GenericDriverError}
use rust_gpu_driver_lab.Driver
use rust_gpu_driver_lab.Driver.{SimulatedGpuDriver}
use rust_gpu_driver_lab.TypedDriver.{DriverState, ready_operational}
use rust_gpu_driver_lab.TypedDriver.Typestate.{Matches}
use rust_gpu_driver_lab.TypedGenericDriver
use rust_gpu_driver_lab.TypedGenericDriver.{TypedGenericGpuDriver, runtime_state}
use rust_gpu_driver_lab.TypedGenericDriver.Typestate.{
  Reachable, created, loaded, started, Reachable-Matches, start_always_succeeds,
}
use rust_gpu_driver_lab.TypedGenericDriver.Operations.{never_state_error}
use rust_gpu_driver_lab.TypedDriver
use rust_gpu_driver_lab.TypedDriver.{TypedDriver}
use rust_gpu_driver_lab.TypedDriver.Generic as Typed
use rust_gpu_driver_lab.TypedDriver.Generic.{typed_Reachable-Matches, typed_start_succeeds}
use rust_gpu_driver_lab.Fifo.{Refusal}
use rust_gpu_driver_lab.Queue.Refines as Heap
use rust_gpu_driver_lab.GenericDriver.Ideal
use rust_gpu_driver_lab.GenericDriver.Traces as Generically
use rust_gpu_driver_lab.TypedGenericDriver.Traces
use rust_gpu_driver_lab.TypedGenericDriver.Observation.{typed_run-Ideal}

abbrev heap_queue : CommandQueue
heap_queue = record { capacity = 2; pending = []; active_ids = [] }

abbrev raw : RawCommand
raw = record { id = 7; offset = 4; length = 4; priority = 2 }

abbrev image : List ℕ
image = image_of 1 5 []

abbrev offline : GenericGpuDriver heap_backend
offline = record { controller = Controller.default; device = Device.default; queue = heap_queue }

abbrev concrete : SimulatedGpuDriver
concrete = record { controller = Controller.default; device = Device.default; queue = heap_queue }

-- A driver whose firmware was loaded, and the same driver started.
abbrev loaded_driver : TypedGenericGpuDriver DriverState.firmware_loaded heap_backend
loaded_driver = record {
  inner = record offline {
    controller = record {
      state = Controller.DeviceState.firmware_loaded (record { major = 1; minor = 5 });
    };
  };
}

abbrev ready_driver : TypedGenericGpuDriver DriverState.ready heap_backend
ready_driver = record {
  inner = record offline {
    controller = record { state = Controller.DeviceState.ready (record { major = 1; minor = 5 }) };
  };
}

loaded_driver-Reachable : Reachable heap_backend DriverState.firmware_loaded loaded_driver
unfolding TypedGenericDriver.new TypedGenericDriver.load_firmware GenericDriver.new
    GenericDriver.load_firmware Controller.load_firmware Controller.check_image
loaded_driver-Reachable =
    loaded {d = TypedGenericDriver.new heap_backend heap_queue} image (created heap_queue) refl

ready_driver-Reachable : Reachable heap_backend DriverState.ready ready_driver
unfolding TypedGenericDriver.start GenericDriver.start Controller.start
ready_driver-Reachable = started loaded_driver-Reachable refl

Reachable-Matches_example : Matches DriverState.ready (runtime_state ready_driver)
Reachable-Matches_example = Reachable-Matches heap_backend ready_driver-Reachable

start_always_succeeds_example :
    (e : TypedGenericGpuDriver DriverState.ready heap_backend) × (TypedGenericDriver.start
        heap_backend loaded_driver
      ≡ ok e)
    × Reachable heap_backend DriverState.ready e
start_always_succeeds_example = start_always_succeeds heap_backend loaded_driver-Reachable

never_state_error_example :
    let refused : GenericDriverError QueueError =
      GenericDriverError.state (invalid_state "ensure_ready" Controller.StateKind.offline) in
    ((TypedGenericDriver.allocate_buffer heap_backend ready_operational ready_driver 8).1
      ≢ err refused)
    × ((TypedGenericDriver.write_buffer heap_backend ready_operational ready_driver 0 (1 ∷ [])).1
        ≢ err refused)
    × ((TypedGenericDriver.submit heap_backend ready_operational ready_driver 0 raw).1
        ≢ err refused)
never_state_error_example =
    never_state_error heap_backend ready_operational 8 0 (1 ∷ []) raw
      (invalid_state "ensure_ready" Controller.StateKind.offline) ready_driver-Reachable

abbrev typed_offline : TypedDriver DriverState.offline
typed_offline = record { inner = concrete }

abbrev typed_loaded : TypedDriver DriverState.firmware_loaded
typed_loaded = record {
  inner = record concrete {
    controller = record {
      state = Controller.DeviceState.firmware_loaded (record { major = 1; minor = 5 });
    };
  };
}

typed_loaded-Reachable : Typed.Reachable DriverState.firmware_loaded typed_loaded
unfolding TypedDriver.new TypedDriver.load_firmware Driver.new Driver.load_firmware Queue.new
    Controller.load_firmware Controller.check_image
typed_loaded-Reachable = Typed.loaded {d = typed_offline} image (Typed.created 2 refl) refl

typed_Reachable-Matches_example :
    Matches DriverState.firmware_loaded (TypedDriver.runtime_state typed_loaded)
typed_Reachable-Matches_example = typed_Reachable-Matches typed_loaded-Reachable

typed_start_succeeds_example :
    (e : TypedDriver DriverState.ready) × (TypedDriver.start typed_loaded ≡ ok e)
    × Typed.Reachable DriverState.ready e
typed_start_succeeds_example = typed_start_succeeds typed_loaded-Reachable

-- Two submissions in a session, the second of which is a duplicate, and one after it.
abbrev session_calls : List Traces.Call
session_calls =
    Traces.allocate_buffer 16
    ∷ Traces.write_buffer 0 (1 ∷ 2 ∷ 3 ∷ 4 ∷ 5 ∷ 6 ∷ 7 ∷ 8 ∷ [])
    ∷ Traces.in_session (
        Traces.SessionCall.submit 0 raw
        ∷ Traces.SessionCall.submit 0 raw
        ∷ Traces.SessionCall.queued_len
        ∷ [])
    ∷ Traces.next_submission
    ∷ []

typed_run-Ideal_example :
    (replies : List (Generically.Reply Refusal)) × (Ideal.run 2 Ideal.new
        (Generically.load_firmware image ∷ Generically.start ∷ Traces.all_calls session_calls)
      ≡ Generically.finished (ok tt) ∷ Generically.finished (ok tt) ∷ replies)
    × (Traces.run heap_backend ready_driver session_calls
        ≡ returns (map (Generically.map_reply Heap.refusal) replies))
unfolding Queue.new TypedGenericDriver.new TypedGenericDriver.load_firmware TypedGenericDriver.start
    GenericDriver.new GenericDriver.load_firmware GenericDriver.start Controller.load_firmware
    Controller.check_image Controller.start
typed_run-Ideal_example =
    typed_run-Ideal heap_contract 2 heap_queue image session_calls {loaded = loaded_driver}
      {ready = ready_driver} (Heap.new-Represents 2 refl).1 refl refl
