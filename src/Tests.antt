-- ===== src/Tests.antt =====
-- Test data, runs of the code and instances of the theorems.
mod Fixtures
mod Allocators
mod Screens
mod Frames
mod Layouts
mod Volumes
mod Directories
mod Queues
mod Executors
mod Keyboards
mod Boots
mod Devices
mod Classes
mod Kernels
mod Wakeups
mod Interrupts
