-- ===== src/Os/Compiler.antt =====
-- os/compiler/compiler.cpp: the assembler FASM, from the source to the executable file.
pub mod Text
pub mod Outcome
pub mod Tables
pub mod InstrTable
pub mod Lexer
pub mod Source
pub mod State
pub mod FirstPass
pub mod SecondPass
pub mod Build
pub mod Exec
