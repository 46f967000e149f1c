-- ===== src/Device/Processor/Stack.antt =====
-- device/processor/processor.cpp: the stack of the running process and its saved context.
-- Addresses are ints that the call converts to unsigned long.
pub mod Frame
pub mod Words
pub mod Moves
pub mod Context
pub mod Switch
use ferry_os.Prelude.{ℕ, none, some, if◌then◌else◌}
use ferry_os.Prelude.Words.{add32, sub32, sext, is_neg, u32}
use ferry_os.Bytes.{int_bytes}
use ferry_os.Device.Mmu.State.{Mmu}
use ferry_os.Device.Mmu.Access.{read_half_word, write}
use ferry_os.Machine.{
  Machine, M, Cpu, pure, ◌>>=◌, ◌>>◌, from_cpu, change_cpu, change_pcb, curr_pid, curr_pcb,
}
use ferry_os.Os.Pcb.{set_stack_top, set_stack_base}

-- `mMemory->readHalfWord` and `mMemory->write` of one int.
unfoldable pub read_int : ℕ → ℕ → M Mmu ℕ
read_int pid a m = elim (read_half_word pid a m.mem) [
  | none ↦ none
  | some (w, s) ↦ some (w, record m { mem = s })
]

unfoldable pub write_int : ℕ → ℕ → ℕ → M Mmu (Unit {0})
write_int a w pid m = elim (write a (int_bytes w) pid m.mem) [
  | none ↦ none
  | some (done, s) ↦ some (tt, record m { mem = s })
]

unfoldable pub push : ℕ → M Mmu (Unit {0})
unfolding write_int curr_pid
push num = do
  ss ← from_cpu (λ c. c.ss)
  sp ← from_cpu (λ c. c.sp)
  pid ← curr_pid
  write_int (sext (sub32 (add32 ss sp) 3)) num pid
  change_cpu (λ c. record c { sp = sub32 c.sp 4 })

unfoldable pub pop : M Mmu ℕ
unfolding read_int curr_pid
pop = do
  ss ← from_cpu (λ c. c.ss)
  sp ← from_cpu (λ c. c.sp)
  pid ← curr_pid
  num ← read_int pid (sext (add32 (add32 ss sp) 1))
  change_cpu (λ c. record c { sp = add32 c.sp 4 })
  pure num

unfoldable pub push_frame : ℕ → M Mmu (Unit {0})
push_frame size = change_cpu (λ c. record c { sp = sub32 c.sp size })

unfoldable pub pop_frame : ℕ → M Mmu (Unit {0})
pop_frame size = change_cpu (λ c. record c { sp = add32 c.sp size })

abbrev stack_address : ℕ → Cpu → ℕ
stack_address index c =
    sext (if is_neg index then add32 c.ss (add32 c.bp index) else add32 c.ss index)

unfoldable pub get_stack_value : ℕ → M Mmu ℕ
unfolding read_int curr_pid
get_stack_value index = do pid ← curr_pid; a ← from_cpu (stack_address index); read_int pid a

unfoldable pub set_stack_value : ℕ → ℕ → M Mmu (Unit {0})
unfolding write_int curr_pid
set_stack_value index value = do
  pid ← curr_pid
  a ← from_cpu (stack_address index)
  write_int a value pid

-- The registers that `saveContext` pushes, in its order.
unfoldable pub save_context : M Mmu (Unit {0})
unfolding curr_pcb
save_context = do
  curr ← curr_pcb
  push (← from_cpu (λ c. c.reg0))
  push (← from_cpu (λ c. c.reg1))
  push (← from_cpu (λ c. c.reg2))
  push (← from_cpu (λ c. c.reg3))
  push (← from_cpu (λ c. c.cs))
  push (← from_cpu (λ c. c.ds))
  push (← from_cpu (λ c. c.fs))
  push (← from_cpu (λ c. c.as_))
  push (← from_cpu (λ c. c.bp))
  push (← from_cpu (λ c. c.pc))
  sp ← from_cpu (λ c. c.sp)
  change_pcb (set_stack_top sp) curr
  ss ← from_cpu (λ c. c.ss)
  change_pcb (set_stack_base ss) curr

-- The pops of `reloadContext`.
unfoldable pub pop_context : M Mmu (Unit {0})
pop_context = do
  pc ← pop
  change_cpu (λ c. record c { pc = pc })
  bp ← pop
  change_cpu (λ c. record c { bp = bp })
  as_ ← pop
  change_cpu (λ c. record c { as_ = as_ })
  fs ← pop
  change_cpu (λ c. record c { fs = fs })
  ds ← pop
  change_cpu (λ c. record c { ds = ds })
  cs ← pop
  change_cpu (λ c. record c { cs = cs })
  reg3 ← pop
  change_cpu (λ c. record c { reg3 = reg3 })
  reg2 ← pop
  change_cpu (λ c. record c { reg2 = reg2 })
  reg1 ← pop
  change_cpu (λ c. record c { reg1 = reg1 })
  reg0 ← pop
  change_cpu (λ c. record c { reg0 = reg0 })

abbrev pub load_stack_registers : ℕ → Machine Mmu → Machine Mmu
load_stack_registers curr m =
    let p = m.core.pcb_manager.pcbs curr in
    record m { cpu = record m.cpu { ss = p.stack_base; sp = p.stack_top } }

unfoldable pub reload_context : M Mmu (Unit {0})
unfolding pop_context
reload_context m = elim m.core.scheduler.pcb_curr [
  | none ↦ none
  | some curr ↦ pop_context (load_stack_registers curr m)
]
