-- ===== src/Device.antt =====
-- The simulated devices: interrupt controller, swap space, page table entries and processor.
pub mod Interrupter
pub mod SwapSpace
pub mod Processor
pub mod PageTableItem
pub mod Mmu
