-- ===== src/Tests.antt =====
-- The properties at concrete inputs: a small machine with a flat memory, four processes and two
-- semaphores.
mod Data
mod Devices
mod Managers
mod Queues
mod Calls
mod Paging
mod Compiling
mod Programs
