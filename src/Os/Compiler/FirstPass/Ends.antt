-- ===== src/Os/Compiler/FirstPass/Ends.antt =====
-- os/compiler/compiler.cpp: the first pass ends, and gives each symbol more than one byte.
use ferry_os.Prelude.{
  ℕ, ◌*◌, ◌<◌, ◌≡◌, refl, Bool, true, false, not, some, List, [], ◌||◌, ◌==◌, arith, length, All,
  Bool-cases, Option-cases, inl, inr,
}
use ferry_os.Prelude.Words.{u32, sub32, is_neg, lt_int}
use ferry_os.Os.Compiler.Text.{Text, atoi}
use ferry_os.Os.Compiler.Outcome.{CompileErr, Ends, ends, undef, Ends-bind, Ends-if, Ends-defined}
use ferry_os.Os.Compiler.Tables.{
  SymbolNode, get_symbol_by_ident, add_symbol, add_func, set_func_info, add_label,
}
use ferry_os.Os.Compiler.Tables.Laws.{All-snoc, add_symbol_old, add_symbol_new, node}
use ferry_os.Os.Compiler.InstrTable.{InstrTable}
use ferry_os.Os.Compiler.Lexer.{Lexer, Token, is_token}
use ferry_os.Os.Compiler.State.{Asm}
use ferry_os.Os.Compiler.State.Ends.{
  Good, fail-Ends, next_token-Good, expect-Good, look_ahead-Ends, skip_newlines-Good, pass-Ends,
}
use ferry_os.Os.Compiler.FirstPass.{
  declare, set_stack_size_def, string_value, string_def, variable_size, stack_place, int_def,
  func_head, func_def, func_end, label_def, first_step, first_pass,
}

-- A symbol of more than one byte.
abbrev pub IsSized : SymbolNode → Type 0
IsSized s = lt_int 1 s.symbol_size ≡ true

abbrev pub Sized : Asm → Type 0
Sized a = All IsSized a.symbol_table

abbrev keep : (a : Asm) (lx : Lexer) → Sized a → Sized (record a { lexer = lx })
keep a lx h = h

add_symbol-IsSized :
    (ident : Text) (type value : ℕ) (arr : Bool) (size stack func : ℕ) (symbols : List SymbolNode)
    → lt_int 1 size ≡ true
    → All IsSized symbols
    → All IsSized (add_symbol ident type value arr size stack func symbols).0
add_symbol-IsSized ident type value arr size stack func symbols big sized =
    elim (Option-cases (get_symbol_by_ident ident func symbols)) [
      | inl fresh ↦
          rw (add_symbol_new ident type value arr size stack func symbols fresh)
            (All-snoc IsSized symbols (node ident type value arr size stack func symbols) sized big)
      | inr (s, found) ↦
          rw (add_symbol_old ident type value arr size stack func symbols s found) sized
    ]

module _ (table : InstrTable) (lines : List Text) (l : ℕ) where
  declare-Good :
      (ident : Text) (type value : ℕ) (arr : Bool) (size stack : ℕ) (a : Asm)
      → lt_int 1 size ≡ true
      → Good Sized l a
      → Ends (Good Sized l) (declare lines ident type value arr size stack a)
  unfolding declare
  declare-Good ident type value arr size stack a big (far, sized) =
      let more =
        add_symbol-IsSized ident type value arr size stack a.curr_func_index a.symbol_table big
          sized in
      let (symbols, index) =
        add_symbol ident type value arr size stack a.curr_func_index a.symbol_table in
      elim (Option-cases index) [
        | inl e ↦ rw (e, declare) (fail-Ends CompileErr.ident_redefinition lines a.lexer)
        | inr (i, e) ↦ rw (e, declare) (ends _ (far, more))
      ]

  set_stack_size_def-Good :
      (a : Asm) → Good Sized l a → Ends (Good Sized l) (set_stack_size_def table lines a)
  unfolding set_stack_size_def
  set_stack_size_def-Good a h =
      Ends-if a.is_func_active (λ _. fail-Ends CompileErr.local_set_stack_size lines a.lexer)
        (λ _.
          Ends-if a.is_set_stack_size_found
            (λ _. fail-Ends CompileErr.multiple_set_stack_size lines a.lexer)
            (λ _.
              Ends-bind (Good Sized l)
                (expect-Good Sized keep table lines l Token.int CompileErr.invalid_stack_size a h)
                (λ b k.
                  Ends-bind (λ n. atoi b.lexer.curr_lexeme ≡ some n) (Ends-defined _)
                    (λ n _. ends _ k))))

  string_value-Good :
      (a : Asm) → Good Sized l a → Ends (λ r. Good Sized l r.1) (string_value table lines a)
  unfolding string_value
  string_value-Good a h =
      Ends-if (is_token a.lexer.curr_token Token.quote)
        (λ _. fail-Ends CompileErr.str_not_def lines a.lexer)
        (λ _.
          Ends-if (is_token a.lexer.curr_token Token.string)
            (λ _.
              Ends-bind (Good Sized l)
                (expect-Good Sized keep table lines l Token.quote CompileErr.char_expected _ h)
                (λ b k. ends _ k))
            (λ _. ends _ h))

  string_def-Good : (a : Asm) → Good Sized l a → Ends (Good Sized l) (string_def table lines a)
  unfolding string_def
  string_def-Good a h =
      Ends-if a.is_func_active (λ _. fail-Ends CompileErr.local_def_string lines a.lexer)
        (λ _.
          Ends-bind (Good Sized l)
            (expect-Good Sized keep table lines l Token.ident CompileErr.ident_expected a h)
            (λ b hb.
              Ends-bind (Good Sized l)
                (expect-Good Sized keep table lines l Token.quote CompileErr.str_not_def b hb)
                (λ c hc.
                  Ends-bind (λ r. Good Sized l r.1) (next_token-Good Sized keep table lines l c hc)
                    (λ (t, d) hd.
                      Ends-bind (λ r. Good Sized l r.1) (string_value-Good d hd)
                        (λ (index, e) he.
                          declare-Good b.lexer.curr_lexeme 2 index false 4 e.global_data_size _ refl
                            he)))))

  variable_size-Good :
      (a : Asm)
      → Good Sized l a
      → Ends (λ r. Good Sized l r.1 × (lt_int 1 r.0.0 ≡ true)) (variable_size table lines a)
  unfolding variable_size
  variable_size-Good a h =
      Ends-bind (λ c. Unit {0}) (look_ahead-Ends Sized keep table lines a)
        (λ c _.
          Ends-if (c == b'[')
            (λ _.
              Ends-bind (Good Sized l)
                (expect-Good Sized keep table lines l Token.open_bracket CompileErr.char_expected a
                  h)
                (λ b hb.
                  Ends-bind (Good Sized l)
                    (expect-Good Sized keep table lines l Token.int CompileErr.invalid_array_size b
                      hb)
                    (λ d hd.
                      Ends-bind (λ n. atoi d.lexer.curr_lexeme ≡ some n) (Ends-defined _)
                        (λ count _.
                          Ends-if (u32 (count * 4) == 0 || is_neg (u32 (count * 4)))
                            (λ _. fail-Ends CompileErr.invalid_array_size lines d.lexer)
                            (λ some_bytes.
                              Ends-bind (Good Sized l)
                                (expect-Good Sized keep table lines l Token.close_bracket
                                  CompileErr.char_expected d hd)
                                (λ e he. ends _ (he, ground arith)))))))
            (λ _. ends _ (h, refl)))

  stack_place-Good :
      (size : ℕ) (a : Asm) → Good Sized l a → Good Sized l (stack_place table lines size a).1
  unfolding stack_place
  stack_place-Good size a h = elim (Bool-cases a.is_func_active) [
    | inl local ↦ rw (local, stack_place) h
    | inr global ↦ rw (global, stack_place) h
  ]

  int_def-Good : (a : Asm) → Good Sized l a → Ends (Good Sized l) (int_def table lines a)
  unfolding int_def
  int_def-Good a h =
      Ends-bind (Good Sized l)
        (expect-Good Sized keep table lines l Token.ident CompileErr.ident_expected a h)
        (λ b hb.
          Ends-bind (λ r. Good Sized l r.1 × (lt_int 1 r.0.0 ≡ true)) (variable_size-Good b hb)
            (λ ((size, arr), c) (hc, big).
              declare-Good b.lexer.curr_lexeme 0 0 arr size (stack_place table lines size c).0
                (stack_place table lines size c).1 big (stack_place-Good size c hc)))

  func_head-Good :
      (name : Text) (index : ℕ) (a : Asm)
      → Good Sized l a
      → Ends (Good Sized l) (func_head table lines name index a)
  unfolding func_head
  func_head-Good name index a h =
      Ends-bind (Good Sized l) (skip_newlines-Good Sized keep table lines l _ h) (λ b hb.
        Ends-if (is_token b.lexer.curr_token Token.open_brace) (λ _. ends _ hb)
          (λ _. fail-Ends CompileErr.char_expected lines b.lexer))

  func_def-Good : (a : Asm) → Good Sized l a → Ends (Good Sized l) (func_def table lines a)
  unfolding func_def
  func_def-Good a h =
      Ends-if a.is_func_active (λ _. fail-Ends CompileErr.nested_func lines a.lexer)
        (λ _.
          Ends-bind (Good Sized l)
            (expect-Good Sized keep table lines l Token.ident CompileErr.ident_expected a h)
            (λ b hb.
              let (funcs, index) =
                add_func b.unset_size b.lexer.curr_lexeme b.instr_stream_size b.func_table in
              elim (Option-cases index) [
                | inl e ↦ rw e (fail-Ends CompileErr.func_redefine lines b.lexer)
                | inr (i, e) ↦
                    rw e (func_head-Good b.lexer.curr_lexeme i (record b { func_table = funcs }) hb)
              ]))

  func_end-Good : (a : Asm) → Good Sized l a → Ends (Good Sized l) (func_end table lines a)
  unfolding func_end
  func_end-Good a h =
      Ends-if (not a.is_func_active) (λ _. fail-Ends CompileErr.char_expected lines a.lexer)
        (λ _.
          elim (Option-cases
            (set_func_info a.curr_func_name a.curr_func_local_data_size a.func_table)) [
              | inl e ↦ rw e undef
              | inr (funcs, e) ↦ rw e (ends _ h)
            ])

  label_def-Good : (a : Asm) → Good Sized l a → Ends (Good Sized l) (label_def table lines a)
  unfolding label_def
  label_def-Good a h =
      Ends-bind (λ c. Unit {0}) (look_ahead-Ends Sized keep table lines a)
        (λ c _.
          Ends-if (not (c == b':')) (λ _. fail-Ends CompileErr.invalid_label lines a.lexer)
            (λ _.
              Ends-if (not a.is_func_active) (λ _. fail-Ends CompileErr.global_label lines a.lexer)
                (λ _.
                  let (labels, index) =
                    add_label a.lexer.curr_lexeme (sub32 a.instr_stream_size 1) a.curr_func_index
                      a.label_table in
                  elim (Option-cases index) [
                    | inl e ↦ rw e (fail-Ends CompileErr.label_redefine lines a.lexer)
                    | inr (i, e) ↦ rw e (ends _ h)
                  ])))

  first_step-Good :
      (t : Token) (a : Asm) → Good Sized l a → Ends (Good Sized l) (first_step table lines t a)
  unfolding first_step
  first_step-Good Token.set_stack_size a h = set_stack_size_def-Good a h
  first_step-Good Token.string_def a h = string_def-Good a h
  first_step-Good Token.int_def a h = int_def-Good a h
  first_step-Good Token.func a h = func_def-Good a h
  first_step-Good Token.close_brace a h = func_end-Good a h
  first_step-Good Token.instr a h =
      Ends-if a.is_func_active (λ _. ends _ h)
        (λ _. fail-Ends CompileErr.global_instr lines a.lexer)
  first_step-Good Token.ident a h = label_def-Good a h
  first_step-Good Token.newline a h = ends a h
  first_step-Good _ a h = fail-Ends CompileErr.invalid_input lines a.lexer

-- The first pass over a source of at least one line, from its start with no symbols, ends: it is not
-- cut short by the bounds of its loops. If it succeeds, each symbol has more than one byte, and what
-- an operand holds before it is set is still not the type of an array with a variable index.
pub first_pass-Ends :
    (table : InstrTable) (lines : List Text) (a : Asm)
    → 0 < length lines
    → a.lexer.curr_source_line ≡ 0
    → a.symbol_table ≡ []
    → Ends Sized (first_pass table lines a)
unfolding first_pass
first_pass-Ends table lines a some_line start empty =
    pass-Ends Sized keep table lines (first_step table lines) (first_step-Good table lines)
      (length lines) a (omega arith) (omega arith) (rw empty tt)
