-- ===== src/Tests.antt =====
-- The theorems at concrete inputs.
mod Buffers
mod Queues
mod Commands
mod Drivers
mod TypedDrivers
mod Devices
