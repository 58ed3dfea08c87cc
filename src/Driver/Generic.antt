-- ===== src/Driver/Generic.antt =====
-- src/driver.rs, src/generic_driver.rs: the concrete driver is the generic one over the heap queue.
use rust_gpu_driver_lab.Base.{ℕ, ◌≡◌, List, returns, map_err, refl, arith}
use rust_gpu_driver_lab.Command.{RawCommand}
use rust_gpu_driver_lab.Device.Buffer.{BufferId}
use rust_gpu_driver_lab.Submission.{device_info}
use rust_gpu_driver_lab.Queue.{QueueError}
use rust_gpu_driver_lab.QueueBackend.Instances.{heap_backend}
use rust_gpu_driver_lab.GenericDriver
use rust_gpu_driver_lab.GenericDriver.{GenericGpuDriver, GenericDriverError}
use rust_gpu_driver_lab.Driver
use rust_gpu_driver_lab.Driver.{SimulatedGpuDriver, DriverApiError}

abbrev pub to_generic : SimulatedGpuDriver → GenericGpuDriver heap_backend
to_generic d = record { controller = d.controller; device = d.device; queue = d.queue }

abbrev pub rename : DriverApiError → GenericDriverError QueueError
rename (DriverApiError.state e) = GenericDriverError.state e
rename (DriverApiError.buffer e) = GenericDriverError.buffer e
rename (DriverApiError.submission e) = GenericDriverError.submission e
rename (DriverApiError.queue e) = GenericDriverError.queue e

abbrev pub generically : {A : Type 0} → Driver.Answer A → GenericDriver.Answer heap_backend A
generically (d, r) = (to_generic d, map_err rename r)

module _ (d : SimulatedGpuDriver) where
  pub load_firmware_agrees :
      (image : List ℕ)
      → GenericDriver.load_firmware heap_backend (to_generic d) image
        ≡ generically (Driver.load_firmware d image)
  unfolding GenericDriver.load_firmware Driver.load_firmware
  load_firmware_agrees image = ground arith

  pub start_agrees : GenericDriver.start heap_backend (to_generic d) ≡ generically (Driver.start d)
  unfolding GenericDriver.start Driver.start
  start_agrees = ground arith

  pub allocate_buffer_agrees :
      (n : ℕ)
      → GenericDriver.allocate_buffer heap_backend (to_generic d) n
        ≡ generically (Driver.allocate_buffer d n)
  unfolding GenericDriver.allocate_buffer Driver.allocate_buffer
  allocate_buffer_agrees n = ground arith

  pub write_buffer_agrees :
      (id : BufferId) (bytes : List ℕ)
      → GenericDriver.write_buffer heap_backend (to_generic d) id bytes
        ≡ generically (Driver.write_buffer d id bytes)
  unfolding GenericDriver.write_buffer Driver.write_buffer
  write_buffer_agrees id bytes = ground arith

  pub submit_agrees :
      (id : BufferId) (command : RawCommand)
      → GenericDriver.submit heap_backend (to_generic d) id command
        ≡ generically (Driver.submit d id command)
  unfolding GenericDriver.submit Driver.submit
  submit_agrees id command = ground arith

  pub next_submission_agrees :
      GenericDriver.next_submission heap_backend (to_generic d)
      ≡ returns (to_generic (Driver.next_submission d).0, (Driver.next_submission d).1)
  unfolding GenericDriver.next_submission Driver.next_submission
  next_submission_agrees = refl

-- Loading firmware, starting, allocating, writing, submitting and taking the next submission give
-- on the concrete driver what they give on the generic driver over the heap queue: the same next
-- state, and the same result under the error of the same name.
pub agrees :
    (d : SimulatedGpuDriver) (image bytes : List ℕ) (n : ℕ) (id : BufferId) (command : RawCommand)
    → (GenericDriver.load_firmware heap_backend (to_generic d) image
        ≡ generically (Driver.load_firmware d image))
      × (GenericDriver.start heap_backend (to_generic d) ≡ generically (Driver.start d))
      × (GenericDriver.allocate_buffer heap_backend (to_generic d) n
          ≡ generically (Driver.allocate_buffer d n))
      × (GenericDriver.write_buffer heap_backend (to_generic d) id bytes
          ≡ generically (Driver.write_buffer d id bytes))
      × (GenericDriver.submit heap_backend (to_generic d) id command
          ≡ generically (Driver.submit d id command))
      × (GenericDriver.next_submission heap_backend (to_generic d)
          ≡ returns (to_generic (Driver.next_submission d).0, (Driver.next_submission d).1))
agrees d image bytes n id command = (
  load_firmware_agrees d image,
  start_agrees d,
  allocate_buffer_agrees d n,
  write_buffer_agrees d id bytes,
  submit_agrees d id command,
  next_submission_agrees d,
)
