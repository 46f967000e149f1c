-- ===== src/Os.antt =====
-- os/oscore, os/scheduler: the kernel. Its objects are static arrays; a pointer to one is its index.
pub mod Pcb
pub mod Sem
pub mod PcbManager
pub mod SemManager
pub mod Scheduler
pub mod Core
pub mod Calls
pub mod Api
pub mod Loader
pub mod Compiler
