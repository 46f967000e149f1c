-- ===== src/Device/Processor/Exec.antt =====
-- device/processor/processor.cpp: the instructions and the cycle of the processor.
-- `api` stands for `OSCore::handleApiCall`, the dispatch of system calls by their names.
use ferry_os.Prelude.{
  ℕ, zero, suc, ◌*◌, ◌%◌, Bool, true, false, not, Option, none, some, List, [], ◌∷◌, leb, ◌==◌,
  if◌then◌else◌, get_or,
}
use ferry_os.Prelude.Words.{add32, sub32, sext, u32, lt_int, div32}
use ferry_os.Config.{Config}
use ferry_os.Device.Mmu.State.{Mmu}
use ferry_os.Machine.{
  M, Cpu, Op, pure, fault, ◌>>=◌, ◌>>◌, from_cpu, change_cpu, change_pcb, curr_pcb, curr_pid,
}
use ferry_os.Device.Interrupter.{has_irq, respond_int}
use ferry_os.Device.Processor.Stack.{
  read_int, push, pop, push_frame, pop_frame, get_stack_value, set_stack_value,
}
use ferry_os.Device.Processor.Decode.{instr_len, read_bytes, fetch_instr}
use ferry_os.Os.Pcb.{inc_total_cycles}
use ferry_os.Os.Calls.{process_delay, process_quit, call_int_service}

-- The operation codes of CpuConfig.h; `no_instr` is any other number.
pub data OpCode : Type 0 where
  mov add sub mul div jmp je jne jg jl push_ pop_ call ret iret callcore pause quit no_instr :
      OpCode

abbrev op_codes : List OpCode
op_codes =
    mov ∷ add ∷ sub ∷ mul ∷ div ∷ jmp ∷ je ∷ jne ∷ jg ∷ jl ∷ push_ ∷ pop_ ∷ call ∷ ret ∷ iret
    ∷ callcore ∷ pause ∷ quit ∷ []

abbrev pub op_code : ℕ → OpCode
op_code n = get_or op_codes n no_instr

-- The operand types of CpuConfig.h.
pub data OpType : Type 0 where
  int ptr string_ref abs_stack_index rel_stack_index instr_index func_index host_api_call_index reg
        no_type :
      OpType

abbrev op_types : List OpType
op_types =
    int ∷ ptr ∷ string_ref ∷ abs_stack_index ∷ rel_stack_index ∷ instr_index ∷ func_index
    ∷ host_api_call_index ∷ reg ∷ []

abbrev pub op_type : ℕ → OpType
op_type n = get_or op_types n no_type

abbrev no_op : Op
no_op = record { kind = 0; value = 0; offset_index = 0 }

abbrev pub operand : ℕ → Cpu → Op
operand i c = get_or c.ir.op_list i no_op

-- `mReg[i]`; the array has four entries.
unfoldable pub get_reg : ℕ → Cpu → Option ℕ
get_reg zero c = some c.reg0
get_reg (suc zero) c = some c.reg1
get_reg (suc (suc zero)) c = some c.reg2
get_reg (suc (suc (suc zero))) c = some c.reg3
get_reg (suc (suc (suc (suc i)))) c = none

unfoldable pub set_reg : ℕ → ℕ → Cpu → Option Cpu
set_reg zero v c = some (record c { reg0 = v })
set_reg (suc zero) v c = some (record c { reg1 = v })
set_reg (suc (suc zero)) v c = some (record c { reg2 = v })
set_reg (suc (suc (suc zero))) v c = some (record c { reg3 = v })
set_reg (suc (suc (suc (suc i)))) v c = none

abbrev is_reg : OpType → Bool
is_reg reg = true
is_reg _ = false

-- `setPC`: the argument is the number of an instruction.
abbrev pub set_pc : ℕ → Cpu → Cpu
set_pc count c = record c { pc = u32 (count * instr_len) }

-- `setFlag`, `clearFlag` and `getFlag` at bit 0, the mask of interrupts.
abbrev pub interrupts_masked : Cpu → Bool
interrupts_masked c = c.flag % 2 == 1

unfoldable pub get_op_stack_index : ℕ → M Mmu ℕ
unfolding get_stack_value
get_op_stack_index i m = elim (op_type (operand i m.cpu).kind) [
  | abs_stack_index ↦ some ((operand i m.cpu).value, m)
  | rel_stack_index ↦
      (do
        value ← get_stack_value (operand i m.cpu).offset_index
        pure (add32 (operand i m.cpu).value value))
        m
  | _ ↦ some (0, m)
]

unfoldable pub get_value : ℕ → M Mmu ℕ
unfolding get_op_stack_index
get_value i m = elim (op_type (operand i m.cpu).kind) [
  | ptr ↦ some (0, m)
  | abs_stack_index ↦ get_stack_value (operand i m.cpu).value m
  | rel_stack_index ↦ (do index ← get_op_stack_index i; get_stack_value index) m
  | reg ↦ elim (get_reg (operand i m.cpu).value m.cpu) [ none ↦ none | some v ↦ some (v, m) ]
  | no_type ↦ some (0, m)
  | _ ↦ some ((operand i m.cpu).value, m)
]

-- Operand 0 receives a value, in `Mov` and `Pop`.
unfoldable pub set_dest : ℕ → M Mmu (Unit {0})
unfolding get_op_stack_index set_reg set_stack_value
set_dest value m =
    if is_reg (op_type (operand 0 m.cpu).kind)
    then elim (set_reg (operand 0 m.cpu).value value m.cpu) [
      | none ↦ none
      | some c ↦ some (tt, record m { cpu = c })
    ]
    else (do index ← get_op_stack_index 0; set_stack_value index value) m

-- `Add`, `Sub`, `Mul` and `Div`, by the function that they compute.
unfoldable pub arithmetic : (ℕ → ℕ → Option ℕ) → M Mmu (Unit {0})
arithmetic f = do
  dest ← get_value 0
  source ← get_value 1
  index ← get_op_stack_index 0
  elim (f dest source) [ none ↦ fault | some v ↦ set_stack_value index v ]

unfoldable pub interprete_arithmetic : OpCode → M Mmu (Unit {0})
unfolding arithmetic set_dest get_value
interprete_arithmetic mov = do source ← get_value 1; set_dest source
interprete_arithmetic add = arithmetic (λ a b. some (add32 a b))
interprete_arithmetic sub = arithmetic (λ a b. some (sub32 a b))
interprete_arithmetic mul = arithmetic (λ a b. some (u32 (a * b)))
interprete_arithmetic div = arithmetic div32
interprete_arithmetic _ = pure tt

-- A conditional jump, by its test.
unfoldable pub jump_if : (ℕ → ℕ → Bool) → M Mmu (Unit {0})
unfolding get_value
jump_if test = do
  op1 ← get_value 0
  op2 ← get_value 1
  (if test op1 op2 then (do count ← get_value 2; change_cpu (set_pc count)) else pure tt)

unfoldable pub interprete_jump : OpCode → M Mmu (Unit {0})
unfolding jump_if get_value
interprete_jump jmp = do count ← get_value 0; change_cpu (set_pc count)
interprete_jump je = jump_if (λ a b. a == b)
interprete_jump jne = jump_if (λ a b. not (a == b))
interprete_jump jg = jump_if (λ a b. lt_int b a)
interprete_jump jl = jump_if lt_int
interprete_jump _ = pure tt

unfoldable pub interprete_stack : OpCode → M Mmu (Unit {0})
unfolding get_value push pop set_dest
interprete_stack push_ = do value ← get_value 0; push value
interprete_stack pop_ = do value ← pop; set_dest value
interprete_stack _ = pure tt

-- The addresses of the function table are ints.
unfoldable pub call_function : M Mmu (Unit {0})
unfolding get_value read_int push push_frame
call_function = do
  index ← get_value 0
  fs ← from_cpu (λ c. c.fs)
  pid ← curr_pid
  entry ← read_int pid (sext (add32 fs (u32 (index * 8))))
  local_size ← read_int pid (sext (add32 (add32 fs (u32 (index * 8))) 4))
  change_cpu (λ c. record c { bp = sub32 c.sp 3 })
  push (← from_cpu (λ c. c.pc))
  push_frame local_size
  push local_size
  change_cpu (set_pc entry)

unfoldable pub return_function : M Mmu (Unit {0})
unfolding pop pop_frame get_stack_value
return_function = do
  local_size ← pop
  pop_frame local_size
  pc ← pop
  change_cpu (λ c. record c { pc = pc })
  sp ← from_cpu (λ c. c.sp)
  next_local_size ← get_stack_value (add32 sp 4)
  change_cpu (λ c. record c { bp = add32 (add32 (add32 sp 4) next_local_size) 1 })

-- The name of the system call: `n` bytes from `index` on, at an unsigned int address.
unfoldable pub call_core : (List ℕ → M Mmu (Unit {0})) → M Mmu (Unit {0})
unfolding get_value read_int read_bytes
call_core api = do
  str_index ← get_value 0
  as_ ← from_cpu (λ c. c.as_)
  pid ← curr_pid
  name_len ← read_int pid (sext (add32 str_index as_))
  (if leb 256 name_len then fault else λ m.
      elim (read_bytes name_len 0 pid (add32 (add32 str_index as_) 4) m.mem) [
        | none ↦ none
        | some (name, s) ↦ api name (record m { mem = s })
      ])

unfoldable pub interprete_call : (List ℕ → M Mmu (Unit {0})) → OpCode → M Mmu (Unit {0})
unfolding call_core call_function return_function
interprete_call api callcore = call_core api
interprete_call api call = call_function
interprete_call api ret = return_function
interprete_call api _ = pure tt

module _ (cfg : Config) (api : List ℕ → M Mmu (Unit {0})) where
  unfoldable pub interprete_ctrl : OpCode → M Mmu (Unit {0})
  unfolding get_value
  interprete_ctrl pause = do delay ← get_value 0; err ← process_delay cfg delay; pure tt
  interprete_ctrl quit = do err ← process_quit cfg; pure tt
  interprete_ctrl _ = pure tt

  -- The groups of the `switch`.
  unfoldable pub interprete : OpCode → M Mmu (Unit {0})
  unfolding interprete_arithmetic interprete_jump interprete_stack interprete_call interprete_ctrl
  interprete mov = interprete_arithmetic mov
  interprete add = interprete_arithmetic add
  interprete sub = interprete_arithmetic sub
  interprete mul = interprete_arithmetic mul
  interprete div = interprete_arithmetic div
  interprete jmp = interprete_jump jmp
  interprete je = interprete_jump je
  interprete jne = interprete_jump jne
  interprete jg = interprete_jump jg
  interprete jl = interprete_jump jl
  interprete push_ = interprete_stack push_
  interprete pop_ = interprete_stack pop_
  interprete call = interprete_call api call
  interprete callcore = interprete_call api callcore
  interprete ret = interprete_call api ret
  interprete iret = interprete_call api iret
  interprete pause = interprete_ctrl pause
  interprete quit = interprete_ctrl quit
  interprete no_instr = pure tt

  unfoldable pub handle_irq : M Mmu (Unit {0})
  handle_irq m =
      if interrupts_masked m.cpu
      then some (tt, m)
      else if has_irq m.int_ctrl
      then (let (c, n) = respond_int m.int_ctrl in
          call_int_service cfg n (record m { int_ctrl = c }))
      else some (tt, m)

  -- One round of the loop of `exec`.
  unfoldable pub exec_step : M Mmu (Unit {0})
  unfolding interprete handle_irq fetch_instr curr_pcb
  exec_step = do
    fetch_instr
    λ m. interprete (op_code m.cpu.ir.op_code) m
    curr ← curr_pcb
    change_pcb inc_total_cycles curr
    handle_irq
