-- ===== src/Device/Processor.antt =====
-- device/processor/processor.cpp: the virtual processor.
pub mod Stack
pub mod Decode
pub mod Exec
pub mod Reset
