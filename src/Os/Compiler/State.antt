-- ===== src/Os/Compiler/State.antt =====
-- os/compiler/compiler.cpp: the state of `AssmblSourceFile`, the members of FASM and the variables of
-- the function, and reading tokens on it.
pub mod Ends
use ferry_os.Prelude.{
  ℕ, zero, suc, ◌+◌, Bool, true, false, Option, none, some, List, [], ◌∷◌, ltb, if◌then◌else◌,
  length,
}
use ferry_os.Os.Compiler.Text.{Text}
use ferry_os.Os.Compiler.Outcome.{Outcome, ok, failed, undefined, unfinished, CompileErr, ◌>>=◌}
use ferry_os.Os.Compiler.Tables.{FuncNode, LabelNode, SymbolNode}
use ferry_os.Os.Compiler.InstrTable.{InstrTable}
use ferry_os.Os.Compiler.Lexer.{
  Token, is_token, Lexer, get_line, get_next_token, get_look_ahead_char, skip_to_next_line,
}
use ferry_os.Os.Compiler.Source.{max_source_line_size}
use ferry_os.Machine.{Op}

pub record AsmInstr : Type 0 where
  pub asm_opcode : ℕ
  pub asm_ops : List Op

-- The instructions are those that the second pass has written; `curr_func` is none before it is set.
-- The fields `unset_` are what the index of a string, the size of the local data of a function and
-- an operand hold before they are set.
pub record Asm : Type 0 where
  pub lexer : Lexer
  pub stack_size : ℕ
  pub global_data_size : ℕ
  pub is_main_func_present : Bool
  pub main_func_index : ℕ
  pub is_set_stack_size_found : Bool
  pub instr_stream_size : ℕ
  pub instr_stream : List AsmInstr
  pub func_table : List FuncNode
  pub label_table : List LabelNode
  pub symbol_table : List SymbolNode
  pub string_table : List Text
  pub host_api_table : List Text
  pub is_func_active : Bool
  pub curr_func : Option FuncNode
  pub curr_func_index : ℕ
  pub curr_func_name : Text
  pub curr_func_local_data_size : ℕ
  pub unset_string : ℕ
  pub unset_size : ℕ
  pub unset_op : Op

-- `ExitOnCodeError` and the return of the code: it copies the line of the lexer to a buffer. The byte
-- that `ExitOnCharExpectedError` writes behind its message is left out.
unfoldable pub fail {ℓ} : {A : Type ℓ} → CompileErr → List Text → Lexer → Outcome A
fail e lines lx = elim (get_line lines lx.curr_source_line) [
  | none ↦ undefined
  | some line ↦ if ltb (length line) max_source_line_size then failed e else undefined
]

abbrev pub fail_at {ℓ} : {A : Type ℓ} → CompileErr → List Text → Asm → Outcome A
fail_at e lines a = fail e lines a.lexer

unfoldable pub next_token : InstrTable → List Text → Asm → Outcome (Token × Asm)
next_token table lines a =
    get_next_token table lines a.lexer >>= λ (t, lx). ok (t, record a { lexer = lx })

-- Another token than the one that must come is an error.
unfoldable pub expect : InstrTable → List Text → Token → CompileErr → Asm → Outcome Asm
unfolding next_token fail
expect table lines t e a =
    next_token table lines a >>= λ (u, b). if is_token u t then ok b else fail_at e lines b

unfoldable pub look_ahead : List Text → Asm → Outcome ℕ
look_ahead lines a = get_look_ahead_char lines a.lexer

abbrev pub total_chars : List Text → ℕ
total_chars [] = 0
total_chars (line ∷ lines) = length line + total_chars lines

-- The loop that reads newlines, with a number of rounds left; each takes a character of the source.
unfoldable pub skip_newlines_from : ℕ → InstrTable → List Text → Asm → Outcome Asm
unfolding next_token
skip_newlines_from zero table lines a = unfinished
skip_newlines_from (suc n) table lines a = next_token table lines a >>= λ (t, b).
    elim (is_token t Token.newline) [ true ↦ skip_newlines_from n table lines b | false ↦ ok b ]

unfoldable pub skip_newlines : InstrTable → List Text → Asm → Outcome Asm
unfolding skip_newlines_from
skip_newlines table lines a = skip_newlines_from (suc (total_chars lines)) table lines a

-- The loop of a pass: a token, what is done at it, and the next line, with a number of rounds left.
unfoldable pub pass : (Token → Asm → Outcome Asm) → ℕ → InstrTable → List Text → Asm → Outcome Asm
unfolding next_token skip_to_next_line
pass step zero table lines a = unfinished
pass step (suc n) table lines a = next_token table lines a >>= λ (t, b).
    elim (is_token t Token.end_of_token_stream) [
      | true ↦ ok b
      | false ↦ step t b >>= λ c.
          (let (more, lx) = skip_to_next_line (length lines) c.lexer in
            let d = record c { lexer = lx } in
            elim more [ true ↦ pass step n table lines d | false ↦ ok d ])
    ]
