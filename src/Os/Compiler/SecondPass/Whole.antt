-- ===== src/Os/Compiler/SecondPass/Whole.antt =====
-- os/compiler/compiler.cpp: `AssmblSourceFile` ends, with instructions as the table has them.
use ferry_os.Prelude.{
  ℕ, ◌<◌, ◌≡◌, ◌⊎◌, refl, Bool, true, false, some, List, [], ◌∷◌, arith, length, ltb, if◌then◌else◌,
  All, Option-cases, inl, inr,
}
use ferry_os.Machine.{Op}
use ferry_os.Os.Compiler.Text.{Text, str_eq, atoi}
use ferry_os.Os.Compiler.Outcome.{
  CompileErr, Ends, ends, fails, undef, Ends-bind, Ends-if, Ends-map, Ends-defined,
}
use ferry_os.Os.Compiler.Tables.{get_func_by_name}
use ferry_os.Os.Compiler.Tables.Laws.{All-snoc}
use ferry_os.Os.Compiler.InstrTable.{InstrTable, get_instr_by_mnemonic, flag_int, flag_reg}
use ferry_os.Os.Compiler.Lexer.{Token, is_token, reset_lexer}
use ferry_os.Os.Compiler.State.{Asm, AsmInstr}
use ferry_os.Os.Compiler.State.Ends.{
  Good, fail-Ends, next_token-Good, expect-Good, skip_newlines-Good, pass-Ends,
}
use ferry_os.Os.Compiler.FirstPass.{main_func_name}
use ferry_os.Os.Compiler.FirstPass.Ends.{Sized, first_pass-Ends}
use ferry_os.Os.Compiler.SecondPass.Types.{
  an_int, a_register, AreAdmitted, no_more, one_more, IsTyped,
}
use ferry_os.Os.Compiler.SecondPass.{
  has, emit, reg_operand, operand_at, next_operand, operands, instr_def, func_start, func_stop,
  second_step, second_pass, assmbl_source_file,
}
use ferry_os.Os.Compiler.SecondPass.Ends.{Fixed, keep, Read, ident_operand-Read}

last_opcode : (b : Bool) → let opcode : ℕ = if b then 17 else 13 in (opcode ≡ 17) ⊎ (opcode ≡ 13)
last_opcode true = inl refl
last_opcode false = inr refl

module _ (table : InstrTable) (lines : List Text) (l : ℕ) where
  abbrev ReadOne : ℕ → Op × Asm → Type 0
  ReadOne types = Read table lines l types

  abbrev ReadAll : List ℕ → List Op × Asm → Type 0
  ReadAll masks r = AreAdmitted masks r.0 × Good (Fixed table) l r.1

  reg_operand-Read :
      (types r : ℕ) (a : Asm)
      → Good (Fixed table) l a
      → Ends (ReadOne types) (reg_operand table lines types r a)
  reg_operand-Read types r a h =
      Ends-if (has types flag_reg) (λ given. ends _ (a_register given, h))
        (λ _. fail-Ends CompileErr.invalid_op lines a.lexer)

  operand_at-Read :
      (t : Token) (types : ℕ) (a : Asm)
      → Good (Fixed table) l a
      → Ends (ReadOne types) (operand_at table lines t types a)
  unfolding operand_at
  operand_at-Read Token.int types a h =
      Ends-if (has types flag_int)
        (λ given.
          Ends-bind (λ n. atoi a.lexer.curr_lexeme ≡ some n) (Ends-defined _)
            (λ n _. ends _ (an_int given, h)))
        (λ _. fail-Ends CompileErr.invalid_op lines a.lexer)
  operand_at-Read Token.r0 types a h = reg_operand-Read types 0 a h
  operand_at-Read Token.r1 types a h = reg_operand-Read types 1 a h
  operand_at-Read Token.r2 types a h = reg_operand-Read types 2 a h
  operand_at-Read Token.r3 types a h = reg_operand-Read types 3 a h
  operand_at-Read Token.ident types a h = ident_operand-Read table lines l types a h
  operand_at-Read _ types a h = fail-Ends CompileErr.invalid_op lines a.lexer

  next_operand-Read :
      (types : ℕ) (a : Asm)
      → Good (Fixed table) l a
      → Ends (ReadOne types) (next_operand table lines types a)
  unfolding next_operand
  next_operand-Read types a h =
      Ends-bind (λ r. Good (Fixed table) l r.1)
        (next_token-Good (Fixed table) (keep table) table lines l a h)
        (λ (t, b) hb. operand_at-Read t types b hb)

  operands-Read :
      (masks : List ℕ) (a : Asm)
      → Good (Fixed table) l a
      → Ends (ReadAll masks) (operands table lines masks a)
  unfolding operands
  operands-Read [] a h = ends _ (no_more, h)
  operands-Read (t ∷ []) a h =
      Ends-bind (ReadOne t) (next_operand-Read t a h)
        (λ (op, b) (p, hb). ends _ (one_more t op [] [] p no_more, hb))
  operands-Read (t ∷ u ∷ more) a h =
      Ends-bind (ReadOne t) (next_operand-Read t a h) (λ (op, b) (p, hb).
        Ends-bind (Good (Fixed table) l)
          (expect-Good (Fixed table) (keep table) table lines l Token.comma CompileErr.char_expected
            b hb)
          (λ c hc.
            Ends-bind (ReadAll (u ∷ more)) (operands-Read (u ∷ more) c hc)
              (λ (ops, d) (ps, hd). ends _ (one_more t op (u ∷ more) ops p ps, hd))))

  emit-Good :
      (opcode : ℕ) (ops : List Op) (a : Asm)
      → IsTyped table (record { asm_opcode = opcode; asm_ops = ops })
      → Good (Fixed table) l a
      → Ends (Good (Fixed table) l) (emit opcode ops a)
  unfolding emit
  emit-Good opcode ops a typed (far, (sized, done)) =
      let instr : AsmInstr = record { asm_opcode = opcode; asm_ops = ops } in
      let more = All-snoc (IsTyped table) a.instr_stream instr done typed in
      Ends-if (ltb (length a.instr_stream) a.instr_stream_size) (λ _. ends _ (far, (sized, more)))
        (λ _. undef)

  instr_def-Good :
      (a : Asm) → Good (Fixed table) l a → Ends (Good (Fixed table) l) (instr_def table lines a)
  unfolding instr_def
  instr_def-Good a h = elim (Option-cases (get_instr_by_mnemonic a.lexer.curr_lexeme table)) [
    | inl e ↦ rw (e, instr_def) undef
    | inr (i, e) ↦
        rw (e, instr_def)
          (Ends-if (ltb (length a.instr_stream) a.instr_stream_size)
            (λ _.
              (Ends-bind (ReadAll i.op_types) (operands-Read i.op_types a h)
                (λ (ops, b) (admitted, hb).
                  Ends-bind (λ r. Good (Fixed table) l r.1)
                    (next_token-Good (Fixed table) (keep table) table lines l b hb)
                    (λ (t, c) hc.
                      Ends-if (is_token t Token.newline)
                        (λ _.
                          emit-Good i.opcode ops c (inl (a.lexer.curr_lexeme, i, e, refl, admitted))
                            hc)
                        (λ _. fails CompileErr.invalid_input)))))
            (λ _. undef))
  ]

  func_start-Good :
      (a : Asm) → Good (Fixed table) l a → Ends (Good (Fixed table) l) (func_start table lines a)
  unfolding func_start
  func_start-Good a h =
      Ends-bind (λ r. Good (Fixed table) l r.1)
        (next_token-Good (Fixed table) (keep table) table lines l a h)
        (λ (t, b) hb. elim (Option-cases (get_func_by_name b.lexer.curr_lexeme b.func_table)) [
          | inl e ↦ rw e undef
          | inr (f, e) ↦ rw e (skip_newlines-Good (Fixed table) (keep table) table lines l _ hb)
        ])

  func_stop-Good :
      (a : Asm) → Good (Fixed table) l a → Ends (Good (Fixed table) l) (func_stop table lines a)
  unfolding func_stop
  func_stop-Good a h = elim (Option-cases a.curr_func) [
    | inl e ↦ rw (e, func_stop) undef
    | inr (f, e) ↦
        rw (e, func_stop)
          (emit-Good (if str_eq f.func_name main_func_name then 17 else 13) [] _
            (inr (last_opcode (str_eq f.func_name main_func_name), refl)) h)
  ]

  second_step-Good :
      (t : Token) (a : Asm)
      → Good (Fixed table) l a
      → Ends (Good (Fixed table) l) (second_step table lines t a)
  unfolding second_step
  second_step-Good Token.func a h = func_start-Good a h
  second_step-Good Token.close_brace a h = func_stop-Good a h
  second_step-Good Token.instr a h = instr_def-Good a h
  second_step-Good _ a h = ends a h

second_pass-Ends :
    (table : InstrTable) (lines : List Text) (a : Asm)
    → 0 < length lines
    → a.lexer.curr_source_line ≡ 0
    → Fixed table a
    → Ends (Fixed table) (second_pass table lines a)
unfolding second_pass
second_pass-Ends table lines a some_line start fixed =
    pass-Ends (Fixed table) (keep table) table lines (second_step table lines)
      (second_step-Good table lines) (length lines) a (omega arith) (omega arith) fixed

-- Assembling a source of at least one line, with no symbols at the start, ends: no loop is cut short
-- by its bound. If it succeeds, each instruction is one of the table, with as many operands as the
-- table has and each of a type that the table admits at its place, or it is the `Quit` or `Ret` at
-- the end of a function, without operands. No operand is an array with a variable index, but one may
-- be left unset where an identifier stands at a place that takes none.
pub assmbl_source_file-IsTyped :
    (table : InstrTable) (lines : List Text) (a : Asm)
    → 0 < length lines
    → a.symbol_table ≡ []
    → Ends (λ b. All (IsTyped table) b.instr_stream) (assmbl_source_file table lines a)
unfolding assmbl_source_file reset_lexer
assmbl_source_file-IsTyped table lines a some_line empty =
    Ends-bind Sized (first_pass-Ends table lines _ some_line refl empty) (λ b sized.
      Ends-map (second_pass-Ends table lines _ some_line refl (sized, tt)) (λ c (_, done). done))
