-- ===== src/Os/Compiler/FirstPass.antt =====
-- os/compiler/compiler.cpp, the first pass of `AssmblSourceFile`: functions, labels and variables.
pub mod Ends
use ferry_os.Prelude.{
  ℕ, zero, suc, ◌+◌, ◌*◌, Bool, true, false, not, ◌&&◌, ◌||◌, Option, none, some, List, [], ◌∷◌,
  ◌==◌, if◌then◌else◌, length,
}
use ferry_os.Prelude.Words.{u32, add32, sub32, is_neg}
use ferry_os.Os.Compiler.Text.{Text, codes, str_eq, atoi}
use ferry_os.Os.Compiler.Outcome.{Outcome, ok, CompileErr, defined, ◌>>=◌}
use ferry_os.Os.Compiler.Tables.{add_string, add_func, set_func_info, add_label, add_symbol}
use ferry_os.Os.Compiler.InstrTable.{InstrTable}
use ferry_os.Os.Compiler.Lexer.{Token, is_token, Lexer}
use ferry_os.Os.Compiler.State.{
  Asm, fail_at, fail, next_token, expect, look_ahead, skip_newlines, pass,
}

abbrev pub main_func_name : Text
main_func_name = codes "MAIN"

-- `AddSymbol` in the current function; a second symbol of the name is an error.
unfoldable pub declare : List Text → Text → ℕ → ℕ → Bool → ℕ → ℕ → Asm → Outcome Asm
declare lines ident type value arr size stack a =
    let (symbols, index) =
      add_symbol ident type value arr size stack a.curr_func_index a.symbol_table in
    elim index [
      | none ↦ fail_at CompileErr.ident_redefinition lines a
      | some i ↦ ok (record a { symbol_table = symbols })
    ]

module _ (table : InstrTable) (lines : List Text) where
  unfoldable pub set_stack_size_def : Asm → Outcome Asm
  unfolding expect atoi
  set_stack_size_def a =
      if a.is_func_active
      then fail_at CompileErr.local_set_stack_size lines a
      else if a.is_set_stack_size_found
      then fail_at CompileErr.multiple_set_stack_size lines a
      else (expect table lines Token.int CompileErr.invalid_stack_size a >>= λ b.
          defined (atoi b.lexer.curr_lexeme) >>= λ size.
          ok (record b { stack_size = size; is_set_stack_size_found = true }))

  -- The string behind the quote: its place in the table, which is left unset where it has no end.
  unfoldable pub string_value : Asm → Outcome (ℕ × Asm)
  unfolding expect add_string
  string_value a =
      if is_token a.lexer.curr_token Token.quote
      then fail_at CompileErr.str_not_def lines a
      else if is_token a.lexer.curr_token Token.string
      then (let (strings, index) = add_string a.lexer.curr_lexeme a.string_table in
          expect table lines Token.quote CompileErr.char_expected
            (record a { string_table = strings })
          >>= λ b. ok (index, b))
      else ok (a.unset_string, a)

  unfoldable pub string_def : Asm → Outcome Asm
  unfolding expect next_token string_value declare
  string_def a =
      if a.is_func_active
      then fail_at CompileErr.local_def_string lines a
      else (expect table lines Token.ident CompileErr.ident_expected a >>= λ b.
          expect table lines Token.quote CompileErr.str_not_def b >>= λ c.
          next_token table lines c >>= λ (t, d). string_value d >>= λ (index, e).
          declare lines b.lexer.curr_lexeme 2 index false 4 e.global_data_size
            (record e { global_data_size = add32 e.global_data_size 4 }))

  -- The size of a variable in bytes, and whether it is an array.
  unfoldable pub variable_size : Asm → Outcome ((ℕ × Bool) × Asm)
  unfolding look_ahead expect atoi
  variable_size a = look_ahead lines a >>= λ c.
      if c == b'['
      then (expect table lines Token.open_bracket CompileErr.char_expected a >>= λ b.
          expect table lines Token.int CompileErr.invalid_array_size b >>= λ d.
          defined (atoi d.lexer.curr_lexeme) >>= λ count.
          (let size = u32 (count * 4) in
            if size == 0 || is_neg size
            then fail_at CompileErr.invalid_array_size lines d
            else (expect table lines Token.close_bracket CompileErr.char_expected d >>= λ e.
                ok ((size, true), e))))
      else ok ((4, false), a)

  -- A local variable stands below the base of the frame, a global one behind the global data.
  unfoldable pub stack_place : ℕ → Asm → ℕ × Asm
  stack_place size a =
      if a.is_func_active
      then (let local = add32 a.curr_func_local_data_size size in
          (sub32 0 local, record a { curr_func_local_data_size = local }))
      else (a.global_data_size, record a { global_data_size = add32 a.global_data_size size })

  unfoldable pub int_def : Asm → Outcome Asm
  unfolding expect variable_size stack_place declare
  int_def a = expect table lines Token.ident CompileErr.ident_expected a >>= λ b.
      variable_size b >>= λ ((size, arr), c).
      (let (stack, d) = stack_place size c in
        declare lines b.lexer.curr_lexeme 0 0 arr size stack d)

  -- The head of a function, whose index is `index`, up to its brace.
  unfoldable pub func_head : Text → ℕ → Asm → Outcome Asm
  unfolding skip_newlines
  func_head name index a =
      let main = str_eq name main_func_name in
      skip_newlines table lines (record a {
        is_main_func_present = a.is_main_func_present || main;
        main_func_index = if main then index else a.main_func_index;
        is_func_active = true;
        curr_func_name = name;
        curr_func_index = index;
        curr_func_local_data_size = 0;
      })
      >>= λ b.
          if is_token b.lexer.curr_token Token.open_brace
          then ok (record b { instr_stream_size = b.instr_stream_size + 1 })
          else fail_at CompileErr.char_expected lines b

  unfoldable pub func_def : Asm → Outcome Asm
  unfolding expect add_func func_head
  func_def a =
      if a.is_func_active
      then fail_at CompileErr.nested_func lines a
      else (expect table lines Token.ident CompileErr.ident_expected a >>= λ b.
          (let name = b.lexer.curr_lexeme in
            let (funcs, index) = add_func b.unset_size name b.instr_stream_size b.func_table in
            elim index [
              | none ↦ fail_at CompileErr.func_redefine lines b
              | some i ↦ func_head name i (record b { func_table = funcs })
            ]))

  unfoldable pub func_end : Asm → Outcome Asm
  unfolding set_func_info
  func_end a =
      if not a.is_func_active
      then fail_at CompileErr.char_expected lines a
      else elim (set_func_info a.curr_func_name a.curr_func_local_data_size a.func_table) [
        | none ↦ Outcome.undefined
        | some funcs ↦ ok (record a { func_table = funcs; is_func_active = false })
      ]

  unfoldable pub label_def : Asm → Outcome Asm
  unfolding look_ahead add_label
  label_def a = look_ahead lines a >>= λ c.
      if not (c == b':')
      then fail_at CompileErr.invalid_label lines a
      else if not a.is_func_active
      then fail_at CompileErr.global_label lines a
      else (let (labels, index) =
            add_label a.lexer.curr_lexeme (sub32 a.instr_stream_size 1) a.curr_func_index
              a.label_table in
          elim index [
            | none ↦ fail_at CompileErr.label_redefine lines a
            | some i ↦ ok (record a { label_table = labels })
          ])

  unfoldable pub first_step : Token → Asm → Outcome Asm
  unfolding set_stack_size_def string_def int_def func_def func_end label_def fail
  first_step Token.set_stack_size a = set_stack_size_def a
  first_step Token.string_def a = string_def a
  first_step Token.int_def a = int_def a
  first_step Token.func a = func_def a
  first_step Token.close_brace a = func_end a
  first_step Token.instr a =
      if a.is_func_active
      then ok (record a { instr_stream_size = a.instr_stream_size + 1 })
      else fail_at CompileErr.global_instr lines a
  first_step Token.ident a = label_def a
  first_step Token.newline a = ok a
  first_step _ a = fail_at CompileErr.invalid_input lines a

  unfoldable pub first_pass : Asm → Outcome Asm
  unfolding first_step pass
  first_pass a = pass first_step (length lines) table lines a
