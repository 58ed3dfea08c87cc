-- ===== src/Device/Runs.antt =====
-- src/lib.rs: any sequence of calls on a device.
use rust_gpu_driver_lab.Base.{ℕ, ◌+◌, ◌≤◌, ◌<◌, ◌≡◌, List, [], ◌∷◌, arith, ok, panic}
use rust_gpu_driver_lab.Device
use rust_gpu_driver_lab.Device.{GpuDevice, default, store}
use rust_gpu_driver_lab.Device.Buffer.{BufferId}
use rust_gpu_driver_lab.Device.Invariant.{IsValid, default-IsValid}
use rust_gpu_driver_lab.Device.Allocation.{allocate_buffer_lem}
use rust_gpu_driver_lab.Device.Calls.{Call, allocate_buffer, apply, apply-Keeps, IsOversized}

-- The device after a sequence of calls, whatever each of them returned.
unfoldable pub run : GpuDevice → List Call → GpuDevice
run d [] = d
run d (c ∷ cs) = run (apply d c).0 cs

-- Any sequence of calls keeps the invariant of a device: each buffer stands under its own identifier,
-- which was handed out, its valid bytes lie in its storage, and no identifier stands twice.
pub device_run-IsValid : (cs : List Call) {d : GpuDevice} → IsValid d → IsValid (run d cs)
unfolding run
device_run-IsValid [] v = v
device_run-IsValid (c ∷ cs) v = device_run-IsValid cs (apply-Keeps _ v c).valid

-- On a device that any calls made from the empty one, a call panics only where it allocates more
-- bytes than a vector can hold.
pub device_run-panic :
    (cs : List Call) (c : Call) → (apply (run default cs) c).1 ≡ panic → IsOversized c
device_run-panic cs c h = (apply-Keeps _ (device_run-IsValid cs default-IsValid) c).no_panic h

next_id-run : (cs : List Call) {d : GpuDevice} → IsValid d → d.next_id ≤ (run d cs).next_id
unfolding run
next_id-run [] v = omega arith
next_id-run (c ∷ cs) v =
    let k = apply-Keeps _ v c in omega (arith, k.ids_grow, next_id-run cs k.valid)

-- On a valid device no identifier is handed out twice, whatever is called in between: of two
-- successful allocations the later one gives the larger identifier.
pub ids_never_reused :
    {d e f : GpuDevice} {id id' : BufferId} (n n' : ℕ) (cs : List Call)
    → IsValid d
    → Device.allocate_buffer d n ≡ (e, ok id)
    → Device.allocate_buffer (run e cs) n' ≡ (f, ok id')
    → id < id'
ids_never_reused {d} {e} {id = id} {id' = id'} n n' cs v h h' =
    let first = allocate_buffer_lem d n v.ids_fit in
    let made : e ≡ (apply d (allocate_buffer n)).0 = unfold apply in ground (arith, first) in
    let w : IsValid e = rw made (apply-Keeps d v (allocate_buffer n)).valid in
    let second = allocate_buffer_lem (run e cs) n' (device_run-IsValid cs w).ids_fit in
    let named : id ≡ d.next_id = ground (arith, first) in
    let grown : e.next_id ≡ d.next_id + 1 = ground (arith, first) in
    let named' : id' ≡ (run e cs).next_id = ground (arith, second) in
    omega (arith, next_id-run cs w)
