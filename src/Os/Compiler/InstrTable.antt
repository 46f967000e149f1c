-- ===== src/Os/Compiler/InstrTable.antt =====
-- os/compiler/compiler.cpp: the table of instructions. The assembler is one object that lives on,
-- so the table and the static index of `AddInstrLookup` are state that a later `Init` goes on with.
pub mod Laws
use ferry_os.Prelude.{
  ℕ, zero, suc, ◌+◌, Bool, true, false, Option, none, some, List, [], ◌∷◌, ltb, leb, ◌==◌,
  if◌then◌else◌, get_or, set, length, replicate,
}
use ferry_os.Os.Compiler.Text.{Text, codes, str_eq, strupr}

-- The types of an operand are a mask of the `OP_FLAG_TYPE` bits.
pub record InstrLookup : Type 0 where
  pub mnemonic : Text
  pub opcode : ℕ
  pub op_types : List ℕ

-- `MAX_INSTR_LOOKUP_COUNT`
abbrev pub max_instr_lookup_count : ℕ
max_instr_lookup_count = 256

pub record InstrTable : Type 0 where
  pub entries : List InstrLookup
  pub next_instr : ℕ

abbrev pub flag_int : ℕ
flag_int = 1

abbrev pub flag_string_ref : ℕ
flag_string_ref = 4

abbrev pub flag_mem_ref : ℕ
flag_mem_ref = 8

abbrev pub flag_line_label : ℕ
flag_line_label = 16

abbrev pub flag_func_name : ℕ
flag_func_name = 32

abbrev pub flag_core_api_call : ℕ
flag_core_api_call = 64

abbrev pub flag_reg : ℕ
flag_reg = 128

-- A call of `AddInstrLookup` and those of `SetOpType` behind it: the types of all operands are set.
-- None where the table is full, the index is -1, and `SetOpType` writes in front of the table; with
-- no operand there is no such call, and the instruction is left out.
unfoldable pub add_instr_lookup : Text → ℕ → List ℕ → InstrTable → Option InstrTable
add_instr_lookup name code [] t = some (
    if leb max_instr_lookup_count t.next_instr then t else record {
      entries =
          set t.entries t.next_instr
            (record { mnemonic = strupr name; opcode = code; op_types = [] });
      next_instr = t.next_instr + 1;
    })
add_instr_lookup name code (type ∷ types) t =
    if leb max_instr_lookup_count t.next_instr
    then none
    else some (record {
      entries =
          set t.entries t.next_instr
            (record { mnemonic = strupr name; opcode = code; op_types = type ∷ types });
      next_instr = t.next_instr + 1;
    })

-- The instructions in the order in which `InitInstrTable` adds them.
abbrev pub instr_set : List (Text × ℕ × List ℕ)
instr_set =
    (codes "Mov", 0, (flag_mem_ref + flag_reg) ∷ (flag_int + flag_mem_ref + flag_reg) ∷ [])
    ∷ (codes "Add", 1, flag_mem_ref ∷ (flag_int + flag_mem_ref) ∷ [])
    ∷ (codes "Sub", 2, flag_mem_ref ∷ (flag_int + flag_mem_ref) ∷ [])
    ∷ (codes "Mul", 3, flag_mem_ref ∷ (flag_int + flag_mem_ref) ∷ [])
    ∷ (codes "Div", 4, flag_mem_ref ∷ (flag_int + flag_mem_ref) ∷ [])
    ∷ (codes "Jmp", 5, flag_line_label ∷ [])
    ∷ (codes "JE", 6, compared)
    ∷ (codes "JNE", 7, compared)
    ∷ (codes "JG", 8, compared)
    ∷ (codes "JL", 9, compared)
    ∷ (codes "Push", 10, (flag_int + flag_mem_ref + flag_string_ref + flag_reg) ∷ [])
    ∷ (codes "Pop", 11, (flag_mem_ref + flag_reg) ∷ [])
    ∷ (codes "Call", 12, flag_func_name ∷ [])
    ∷ (codes "Ret", 13, [])
    ∷ (codes "CallCore", 15, flag_core_api_call ∷ [])
    ∷ (codes "Pause", 16, (flag_int + flag_mem_ref + flag_reg) ∷ [])
    ∷ (codes "Quit", 17, [])
    ∷ []
  where
    compared : List ℕ
    compared =
        (flag_int + flag_mem_ref + flag_reg)
        ∷ (flag_int + flag_mem_ref + flag_reg)
        ∷ flag_line_label
        ∷ []

unfoldable pub add_instrs : List (Text × ℕ × List ℕ) → InstrTable → Option InstrTable
add_instrs [] t = some t
add_instrs ((name, code, types) ∷ more) t = elim (add_instr_lookup name code types t) [
  | none ↦ none
  | some t' ↦ add_instrs more t'
]

unfoldable pub init_instr_table : InstrTable → Option InstrTable
init_instr_table t = add_instrs instr_set t

-- The loop of `GetInstrByMnemonic` over all entries, those not yet added too.
unfoldable pub find_instr : Text → List InstrLookup → Option InstrLookup
find_instr name [] = none
find_instr name (e ∷ entries) = if str_eq e.mnemonic name then some e else find_instr name entries

unfoldable pub get_instr_by_mnemonic : Text → InstrTable → Option InstrLookup
unfolding find_instr
get_instr_by_mnemonic name t = find_instr name t.entries
