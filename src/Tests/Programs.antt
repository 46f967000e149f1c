-- ===== src/Tests/Programs.antt =====
-- os/compiler: a whole program, assembled and read by the processor.
use ferry_os.Prelude.{
  sym, subst, ◌*◌, ℕ, zero, suc, ◌≡◌, refl, arith, none, some, List, [], ◌∷◌, replicate, All, false,
}
use ferry_os.Machine.{Instr}
use ferry_os.Device.Processor.Decode.{decode, instr_len}
use ferry_os.Os.Compiler.Text.{
  Text, codes, strupr, str_eq, drop_blanks, count_blanks, is_string_ident, is_string_integer,
}
use ferry_os.Os.Compiler.Outcome.{ok, failed, undefined, unfinished, ◌>>=◌}
use ferry_os.Os.Compiler.InstrTable.{
  InstrTable, init_instr_table, add_instrs, add_instr_lookup, get_instr_by_mnemonic,
}
use ferry_os.Os.Compiler.Lexer.{
  Token, LexState, take_chars, drop_chars, get_next_token, get_look_ahead_char,
}
use ferry_os.Os.Compiler.State.{Asm, AsmInstr}
use ferry_os.Os.Compiler.SecondPass.{assmbl_source_file, second_pass}
use ferry_os.Os.Compiler.FirstPass.{first_pass}
use ferry_os.Os.Compiler.Tables.{add_symbol}
use ferry_os.Os.Compiler.Build.{code_bytes}
use ferry_os.Os.Compiler.Build.Code.{fetched_instr}
use ferry_os.Os.Compiler.Build.Assembled.{
  IsFit, HasWords, init_instr_table-IsFit, decode-assmbl_source_file,
}

abbrev new_asm : Asm
new_asm = record {
  lexer = record {
    curr_source_line = 0;
    index0 = 0;
    index1 = 0;
    curr_token = Token.invalid;
    curr_lexeme = [];
    curr_lex_state = LexState.no_string;
  };
  stack_size = 0;
  global_data_size = 0;
  is_main_func_present = false;
  main_func_index = 0;
  is_set_stack_size_found = false;
  instr_stream_size = 0;
  instr_stream = [];
  func_table = [];
  label_table = [];
  symbol_table = [];
  string_table = [];
  host_api_table = [];
  is_func_active = false;
  curr_func = none;
  curr_func_index = 99;
  curr_func_name = [];
  curr_func_local_data_size = 0;
  unset_string = 0;
  unset_size = 0;
  unset_op = record { kind = 0; value = 0; offset_index = 0 };
}

abbrev source : List Text
source = codes "FUNC MAIN\n" ∷ codes "{\n" ∷ codes "INT X\n" ∷ codes "MOV X, 5\n" ∷ codes "}\n" ∷ []

-- A table of 17 places, filled by `Init`.
abbrev short_table : InstrTable
short_table = record {
  entries = replicate 17 (record { mnemonic = codes "?"; opcode = 0; op_types = [] });
  next_instr = 0;
}

abbrev filled_table : InstrTable
filled_table = elim (init_instr_table short_table) [ none ↦ short_table | some t ↦ t ]

short_table-IsFit :
    (n : ℕ) → All IsFit (replicate n (record { mnemonic = codes "?"; opcode = 0; op_types = [] }))
short_table-IsFit zero = tt
short_table-IsFit (suc n) =
    (record { short = omega arith; few = omega arith; idents = tt }, short_table-IsFit n)

abbrev assembled : Asm
assembled = elim (assmbl_source_file filled_table source new_asm) [
  | ok b ↦ b
  | failed e ↦ new_asm
  | undefined ↦ new_asm
  | unfinished ↦ new_asm
]

abbrev quit : AsmInstr
quit = record { asm_opcode = 17; asm_ops = [] }

abbrev move : AsmInstr
move = record {
  asm_opcode = 0;
  asm_ops =
      record { kind = 3; value = 4294967292; offset_index = 0 }
      ∷ record { kind = 0; value = 5; offset_index = 0 }
      ∷ [];
}

abbrev blank_instr : Instr
blank_instr = record {
  op_code = 0;
  op_num = 0;
  op_list = replicate 4 (record { kind = 0; value = 0; offset_index = 0 });
}

is_assembled : assmbl_source_file filled_table source new_asm ≡ ok assembled
unfolding assmbl_source_file init_instr_table ◌>>=◌ first_pass get_next_token strupr drop_blanks
    get_instr_by_mnemonic add_instrs add_instr_lookup str_eq count_blanks is_string_ident
    is_string_integer get_look_ahead_char add_symbol second_pass
is_assembled = refl

is_stream : assembled.instr_stream ≡ move ∷ quit ∷ []
unfolding assmbl_source_file init_instr_table ◌>>=◌ first_pass get_next_token strupr drop_blanks
    get_instr_by_mnemonic add_instrs add_instr_lookup str_eq count_blanks is_string_ident
    is_string_integer get_look_ahead_char add_symbol second_pass
is_stream = refl

is_filled : init_instr_table short_table ≡ some filled_table
unfolding init_instr_table add_instrs add_instr_lookup
is_filled = refl

words : All (λ i. All HasWords i.asm_ops) assembled.instr_stream
words =
    subst (All (λ i. All HasWords i.asm_ops)) (sym is_stream)
      (((omega arith, omega arith), ((omega arith, omega arith), tt)), (tt, tt))

decode-assmbl_source_file_example :
    decode
      (take_chars instr_len (drop_chars (instr_len * 0) (code_bytes assembled.instr_stream)))
      blank_instr
    ≡ some (fetched_instr move blank_instr)
decode-assmbl_source_file_example =
    decode-assmbl_source_file filled_table source new_asm assembled [] (quit ∷ []) move blank_instr
      (init_instr_table-IsFit short_table filled_table (short_table-IsFit 17) is_filled)
      (omega arith) refl is_assembled words is_stream refl
