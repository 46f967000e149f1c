-- ===== src/Lib.antt =====
-- Ferry-OS is an operating system for a simulated computer. A processor runs the instructions of
-- the process on the CPU out of paged memory, one instruction per round of `Processor::exec`. After
-- each it asks the interrupt controller, whose source 0 is a timer. The kernel, OSCore, serves the
-- interrupt: it saves the context of the process on its stack, counts the tick, wakes the processes
-- whose delay has run out, and has the scheduler choose the next process when a time slice is used
-- up. Programs call the kernel to pause, to delete processes and to use semaphores.
--
-- The files and what they model:
-- Config: src/config/config.cpp and include/config/macro.h, the default configuration.
-- Bytes: the bytes of an int.
-- Machine: the registers of include/device/processor/processor.h, the state of
--   include/os/oscore/oscore.h, and the monad of the operations on both. No result stands for a
--   null pointer that is followed, an array that is left, a division by 0, or a page fault that
--   does not return.
-- Device/Interrupter: src/device/interrupter/interrupter.cpp.
-- Device/SwapSpace: the swap pages of src/device/fs/fs.cpp. The file of the host is a function from
--   page numbers to bytes, or nothing where it cannot be opened.
-- Device/PageTableItem: the entries of the page and frame tables, src/device/memory.
-- Device/Mmu: src/device/memory, the memory management unit. Frames: the frame table of mmu.cpp.
--   ProcessTable: process_table_item.cpp. PageTable: the entries of page_table.cpp, their links and
--   the map of their keys. State: the whole unit, with the memory of the host and the swap space.
--   Schedule: `insertPage`, `schedule` and `pageFault`. Access: reading and writing. UserMemory,
--   SystemMemory, Processes: the methods of mmu.cpp that give memory out and take it back. A
--   pointer to an entry or a frame is its place in its array, an address of the host that of a page.
-- Device/Processor: src/device/processor/processor.cpp on the unit of Device/Mmu, with the stack and
--   the context in Stack, `fetchIstr` in Decode and the instructions in Exec. A page fault that does
--   not return gives no result, in a method of the kernel too.
-- Os/Pcb, Os/PcbManager, Os/Sem, Os/SemManager: the classes of the same names in src/os/oscore.
-- Os/Scheduler: src/os/scheduler/OSScheduler.cpp.
-- Os/Core: the operations of src/os/oscore/OSCore.cpp on the state of the kernel. Os/Calls: those
--   that also switch the context of the processor. Os/Api: the system calls. Os/Loader:
--   `loadExecFile` and `processCreate`, on the unit of Device/Mmu.
-- Os/Compiler: src/os/compiler/compiler.cpp, with include/os/compiler/compiler.h and
--   include/config/fasmconfig.h. Text: characters and strings. Source: `LoadSourceFile`. Lexer:
--   `GetNextToken`. Tables and InstrTable: the tables of names and instructions. State: the
--   assembler and the loops over the lines. FirstPass, SecondPass: `AssmblSourceFile`. Build:
--   `BuildFSE`. Exec: `Exec`. Outcome: success, an error code, undefined behaviour, or `unfinished`,
--   the end of a loop's bound, which the source has not.
-- Tests: the properties at concrete inputs.
--
-- A pointer to a process control block or a semaphore is its index in the array that owns it; the
-- blocks are one store, so that a queue, a semaphore and the scheduler see the same block.
-- Operations have the names of the source in lower case. A w-bit register wraps by `% 2 ^ w`; an
-- int is its bit pattern. A string is the list of its bytes without the closing zero; where the
-- source reads a place that was never written or writes behind an array, the outcome is undefined,
-- and the content of an unset operand is a parameter. Each call of the kernel is one step, so the
-- lock `mMtx` is left out. Loops are recursion over a queue or over the number of rounds that are
-- left, which the loop's own bound gives. Outside the compiler there are two others: a read calls
-- itself after a page fault, for which two calls are enough; and the search of `schedule`, which
-- in the source does not end when it runs in a circle of hosted entries, has as many rounds as
-- there are entries and one more, and no result behind them. In the compiler, a pass has as many
-- rounds as the source has lines, for each round goes on to a new one, and the skipping of line
-- ends has one round more than the source has characters, for each token takes one. An
-- `unordered_map` is walked from the newest key on, which the library leaves open.
-- `Processor::exec`, which never returns, is modelled by its round `exec_step`.
--
-- Not modelled: `freeSystemMemory`, which is deprecated and copies overlapping memory; the table of
-- system calls by name, which is the parameter `api` of the instructions; the messages and the
-- releasing of memory of the compiler; shell, booter, timer thread, printer and voicer; files of
-- the host, reading the configuration file, and debugging output.
--
-- In a count of places, a block is in a queue, on the CPU, or, for the idle block alone, at rest.
pub mod Prelude
pub mod Config
pub mod Bytes
pub mod Machine
pub mod Device
pub mod Os
pub mod Tests
