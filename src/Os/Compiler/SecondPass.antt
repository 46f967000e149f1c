-- ===== src/Os/Compiler/SecondPass.antt =====
-- os/compiler/compiler.cpp, the second pass of `AssmblSourceFile`: the instructions.
pub mod Types
pub mod Ends
pub mod Whole
use Prim.Native.Nat.{bit_and}
use ferry_os.Prelude.{
  ℕ, zero, suc, ◌+◌, Bool, true, false, not, Option, none, some, List, [], ◌∷◌, ◌++◌, ◌==◌, ltb,
  if◌then◌else◌, length,
}
use ferry_os.Prelude.Words.{add32, lt_int}
use ferry_os.Machine.{Op}
use ferry_os.Os.Compiler.Text.{Text, str_eq, atoi}
use ferry_os.Os.Compiler.Outcome.{Outcome, ok, failed, undefined, CompileErr, defined, ◌>>=◌}
use ferry_os.Os.Compiler.Tables.{
  SymbolNode, FuncNode, add_string, get_func_by_name, get_label_by_ident, get_symbol_by_ident,
}
use ferry_os.Os.Compiler.InstrTable.{
  InstrTable, get_instr_by_mnemonic, flag_int, flag_mem_ref, flag_line_label, flag_func_name,
  flag_core_api_call, flag_reg,
}
use ferry_os.Os.Compiler.Lexer.{Token, is_token, reset_lexer}
use ferry_os.Os.Compiler.State.{
  Asm, AsmInstr, fail_at, fail, next_token, expect, look_ahead, skip_newlines, pass,
}
use ferry_os.Os.Compiler.FirstPass.{main_func_name, first_pass}

abbrev pub has : ℕ → ℕ → Bool
has types flag = not (bit_and types flag == 0)

-- The instruction at the next place of the stream, for which the first pass has counted a place.
unfoldable pub emit : ℕ → List Op → Asm → Outcome Asm
emit opcode ops a =
    if ltb (length a.instr_stream) a.instr_stream_size
    then ok (record a {
      instr_stream = a.instr_stream ++ (record { asm_opcode = opcode; asm_ops = ops }) ∷ [];
    })
    else undefined

module _ (table : InstrTable) (lines : List Text) where
  -- The index of an array behind its bracket: an int, or a variable, which must have one byte.
  unfoldable pub array_index : Token → ℕ → Asm → Outcome (Op × Asm)
  array_index Token.int base a = defined (atoi a.lexer.curr_lexeme) >>= λ offset.
      ok (record a.unset_op { kind = 3; value = add32 base offset }, a)
  array_index Token.ident base a =
      elim (get_symbol_by_ident a.lexer.curr_lexeme a.curr_func_index a.symbol_table) [
        | none ↦ fail_at CompileErr.undef_ident lines a
        | some s ↦
            if lt_int 1 s.symbol_size
            then fail_at CompileErr.invalid_array_size lines a
            else ok (record { kind = 4; value = base; offset_index = s.stack_index }, a)
      ]
  array_index _ base a = fail_at CompileErr.invalid_array_size lines a

  unfoldable pub array_operand : SymbolNode → Asm → Outcome (Op × Asm)
  unfolding expect next_token array_index
  array_operand s a =
      if not s.is_arr
      then fail_at CompileErr.arr_not_indexed lines a
      else (expect table lines Token.open_bracket CompileErr.char_expected a >>= λ b.
          next_token table lines b >>= λ (t, c). array_index t s.stack_index c >>= λ (op, d).
          expect table lines Token.close_bracket CompileErr.char_expected d >>= λ e. ok (op, e))

  -- A variable with no index. At an array the tables are released and then used.
  unfoldable pub plain_operand : SymbolNode → Asm → Outcome (Op × Asm)
  plain_operand s a =
      if s.is_arr
      then undefined
      else if s.symbol_type == 2
      then ok (record a.unset_op { kind = 2; value = s.init_value }, a)
      else ok (record a.unset_op { kind = 3; value = s.stack_index }, a)

  unfoldable pub mem_operand : Asm → Outcome (Op × Asm)
  unfolding look_ahead plain_operand array_operand
  mem_operand a = elim (get_symbol_by_ident a.lexer.curr_lexeme a.curr_func_index a.symbol_table) [
    | none ↦ fail_at CompileErr.undef_ident lines a
    | some s ↦
        look_ahead lines a >>= λ c. if c == b'[' then array_operand s a else plain_operand s a
  ]

  unfoldable pub label_operand : Op → Asm → Outcome (Op × Asm)
  label_operand op a =
      elim (get_label_by_ident a.lexer.curr_lexeme a.curr_func_index a.label_table) [
        | none ↦ fail_at CompileErr.invalid_label lines a
        | some l ↦ ok (record op { kind = 5; value = l.target_index }, a)
      ]

  unfoldable pub func_operand : Op → Asm → Outcome (Op × Asm)
  func_operand op a = elim (get_func_by_name a.lexer.curr_lexeme a.func_table) [
    | none ↦ fail_at CompileErr.undef_func lines a
    | some f ↦ ok (record op { kind = 6; value = f.func_index }, a)
  ]

  unfoldable pub api_operand : Op → Asm → Outcome (Op × Asm)
  api_operand op a =
      let (apis, index) = add_string a.lexer.curr_lexeme a.host_api_table in
      ok (record op { kind = 7; value = index }, record a { host_api_table = apis })

  -- An identifier is read as all that the instruction takes at its place, in turn.
  unfoldable pub ident_operand : ℕ → Asm → Outcome (Op × Asm)
  unfolding mem_operand label_operand func_operand api_operand
  ident_operand types a =
      (if has types flag_mem_ref then mem_operand a else ok (a.unset_op, a)) >>= λ (op, b).
      (if has types flag_line_label then label_operand op b else ok (op, b)) >>= λ (op', c).
      (if has types flag_func_name then func_operand op' c else ok (op', c)) >>= λ (op'', d).
      if has types flag_core_api_call then api_operand op'' d else ok (op'', d)

  abbrev pub reg_operand : ℕ → ℕ → Asm → Outcome (Op × Asm)
  reg_operand types r a =
      if has types flag_reg
      then ok (record a.unset_op { kind = 8; value = r }, a)
      else fail_at CompileErr.invalid_op lines a

  unfoldable pub operand_at : Token → ℕ → Asm → Outcome (Op × Asm)
  unfolding ident_operand
  operand_at Token.int types a =
      if has types flag_int
      then (defined (atoi a.lexer.curr_lexeme) >>= λ n.
          ok (record a.unset_op { kind = 0; value = n }, a))
      else fail_at CompileErr.invalid_op lines a
  operand_at Token.r0 types a = reg_operand types 0 a
  operand_at Token.r1 types a = reg_operand types 1 a
  operand_at Token.r2 types a = reg_operand types 2 a
  operand_at Token.r3 types a = reg_operand types 3 a
  operand_at Token.ident types a = ident_operand types a
  operand_at _ types a = fail_at CompileErr.invalid_op lines a

  unfoldable pub next_operand : ℕ → Asm → Outcome (Op × Asm)
  unfolding next_token operand_at
  next_operand types a = next_token table lines a >>= λ (t, b). operand_at t types b

  -- The loop over the operands of an instruction, with a comma between two.
  unfoldable pub operands : List ℕ → Asm → Outcome (List Op × Asm)
  unfolding next_operand expect
  operands [] a = ok ([], a)
  operands (types ∷ []) a = next_operand types a >>= λ (op, b). ok (op ∷ [], b)
  operands (types ∷ u ∷ more) a = next_operand types a >>= λ (op, b).
      expect table lines Token.comma CompileErr.char_expected b >>= λ c.
      operands (u ∷ more) c >>= λ (ops, d). ok (op ∷ ops, d)

  -- The operation is written in front of the operands, so the place must be there before.
  unfoldable pub instr_def : Asm → Outcome Asm
  unfolding operands next_token emit
  instr_def a = elim (get_instr_by_mnemonic a.lexer.curr_lexeme table) [
    | none ↦ undefined
    | some i ↦
        if ltb (length a.instr_stream) a.instr_stream_size
        then (operands i.op_types a >>= λ (ops, b). next_token table lines b >>= λ (t, c).
            if is_token t Token.newline
            then emit i.opcode ops c
            else failed CompileErr.invalid_input)
        else undefined
  ]

  unfoldable pub func_start : Asm → Outcome Asm
  unfolding next_token skip_newlines
  func_start a = next_token table lines a >>= λ (t, b).
      elim (get_func_by_name b.lexer.curr_lexeme b.func_table) [
        | none ↦ undefined
        | some f ↦
            skip_newlines table lines (record b {
              curr_func = some f;
              is_func_active = true;
              curr_func_index = f.func_index;
            })
      ]

  -- A function ends with `Quit` if it is the main function, and with `Ret` otherwise.
  unfoldable pub func_stop : Asm → Outcome Asm
  unfolding emit
  func_stop a = elim a.curr_func [
    | none ↦ undefined
    | some f ↦
        emit (if str_eq f.func_name main_func_name then 17 else 13) []
          (record a { is_func_active = false })
  ]

  unfoldable pub second_step : Token → Asm → Outcome Asm
  unfolding func_start func_stop instr_def
  second_step Token.func a = func_start a
  second_step Token.close_brace a = func_stop a
  second_step Token.instr a = instr_def a
  second_step _ a = ok a

  unfoldable pub second_pass : Asm → Outcome Asm
  unfolding second_step pass
  second_pass a = pass second_step (length lines) table lines a

  abbrev at_start : Asm → Asm
  at_start a = record a {
    lexer = reset_lexer a.lexer;
    stack_size = 0;
    is_main_func_present = false;
    instr_stream_size = 0;
    is_set_stack_size_found = false;
    global_data_size = 0;
    is_func_active = false;
    curr_func = none;
    curr_func_local_data_size = 0;
  }

  unfoldable pub assmbl_source_file : Asm → Outcome Asm
  unfolding reset_lexer
  assmbl_source_file a = first_pass table lines (at_start a) >>= λ b.
      second_pass (record b { lexer = reset_lexer b.lexer; instr_stream = [] })
