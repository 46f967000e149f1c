-- ===== src/Device/Mmu.antt =====
-- device/memory/mmu.cpp: the memory management unit, over the page table, the frame table and the
-- tables of the processes.
pub mod Frames
pub mod ProcessTable
pub mod PageTable
pub mod State
pub mod Schedule
pub mod Access
pub mod UserMemory
pub mod SystemMemory
pub mod Processes
