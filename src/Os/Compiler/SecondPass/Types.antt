-- ===== src/Os/Compiler/SecondPass/Types.antt =====
-- os/compiler/compiler.cpp: the types of operands that the table of instructions admits.
use ferry_os.Prelude.{ℕ, ◌≡◌, ◌⊎◌, true, false, some, List, [], ◌∷◌}
use ferry_os.Machine.{Op}
use ferry_os.Os.Compiler.Text.{Text}
use ferry_os.Os.Compiler.InstrTable.{
  InstrTable, InstrLookup, get_instr_by_mnemonic, flag_int, flag_mem_ref, flag_line_label,
  flag_func_name, flag_core_api_call, flag_reg,
}
use ferry_os.Os.Compiler.State.{AsmInstr}
use ferry_os.Os.Compiler.SecondPass.{has}

-- The types of an operand that a mask admits. There is none for an array with a variable index. An
-- identifier at a place that takes no identifier leaves the operand unset.
pub data IsAdmitted (types : ℕ) : ℕ → Type 0 where
  an_int : has types flag_int ≡ true → IsAdmitted types 0
  a_string : has types flag_mem_ref ≡ true → IsAdmitted types 2
  a_place : has types flag_mem_ref ≡ true → IsAdmitted types 3
  a_label : has types flag_line_label ≡ true → IsAdmitted types 5
  a_function : has types flag_func_name ≡ true → IsAdmitted types 6
  a_call : has types flag_core_api_call ≡ true → IsAdmitted types 7
  a_register : has types flag_reg ≡ true → IsAdmitted types 8
  left_unset :
      (kind : ℕ)
      → has types flag_mem_ref ≡ false
      → has types flag_line_label ≡ false
      → has types flag_func_name ≡ false
      → has types flag_core_api_call ≡ false
      → IsAdmitted types kind

-- As many operands as masks, each of a type that its mask admits.
pub data AreAdmitted : List ℕ → List Op → Type 0 where
  no_more : AreAdmitted [] []
  one_more :
      (types : ℕ) (op : Op) (more : List ℕ) (ops : List Op)
      → IsAdmitted types op.kind
      → AreAdmitted more ops
      → AreAdmitted (types ∷ more) (op ∷ ops)

-- An instruction of the table with operands that it admits, or the `Quit` or `Ret` at the end of a
-- function.
abbrev pub IsTyped : InstrTable → AsmInstr → Type 0
IsTyped table i =
    ((name : Text) × (e : InstrLookup) × (get_instr_by_mnemonic name table ≡ some e)
      × (i.asm_opcode ≡ e.opcode)
      × AreAdmitted e.op_types i.asm_ops)
    ⊎ (((i.asm_opcode ≡ 17) ⊎ (i.asm_opcode ≡ 13)) × (i.asm_ops ≡ []))
