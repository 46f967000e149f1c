-- ===== src/Tests/Compiling.antt =====
-- os/compiler: programs that are assembled.
use ferry_os.Prelude.{ℕ, ◌+◌, ◌≡◌, refl, false, none, some, List, [], ◌∷◌, ◌++◌, replicate, length}
use ferry_os.Os.Compiler.Text.{Text, codes}
use ferry_os.Os.Compiler.InstrTable.{InstrTable, init_instr_table}
use ferry_os.Os.Compiler.Lexer.{Token, LexState}
use ferry_os.Os.Compiler.State.{Asm}
use ferry_os.Prelude.{◌*◌, ◌≤◌, ◌⊎◌, arith, All}
use ferry_os.Bytes.{int_bytes}
use ferry_os.Machine.{Instr}
use ferry_os.Device.Processor.Decode.{decode, instr_len}
use ferry_os.Os.Loader
use ferry_os.Os.Loader.{header_of}
use ferry_os.Os.Compiler.Text.{str_eq, strip_from}
use ferry_os.Os.Compiler.Text.Laws.{IsBare, quoted_after, strip_from-IsBare}
use ferry_os.Os.Compiler.Outcome.{Ends, ok}
use ferry_os.Os.Compiler.Tables.{SymbolNode, add_string, add_symbol, get_symbol_by_ident}
use ferry_os.Os.Compiler.Tables.Laws.{IsFound, add_symbol-IsFound}
use ferry_os.Os.Compiler.InstrTable.Laws.{inits, inits_bound}
use ferry_os.Os.Compiler.Lexer.{take_chars, drop_chars, string_at}
use ferry_os.Os.Compiler.Lexer.Quoting.{escape, string_at-escape}
use ferry_os.Os.Compiler.State.{AsmInstr}
use ferry_os.Os.Compiler.SecondPass.Types.{IsTyped}
use ferry_os.Os.Compiler.SecondPass.{assmbl_source_file}
use ferry_os.Os.Compiler.SecondPass.Whole.{assmbl_source_file-IsTyped}
use ferry_os.Os.Compiler.Build.{header_bytes, code_bytes, string_bytes, build_fse}
use ferry_os.Os.Compiler.Build.Code.{fetched_instr, decode-code_bytes}
use ferry_os.Os.Compiler.Build.Strings.{add_string-place}
use ferry_os.Os.Compiler.Build.Header.{header, tables, build_fse-header}

abbrev blank_table : InstrTable
blank_table = record {
  entries = replicate 256 (record { mnemonic = codes "?"; opcode = 0; op_types = [] });
  next_instr = 0;
}

abbrev new_asm : Asm
new_asm = record {
  lexer = record {
    curr_source_line = 0;
    index0 = 0;
    index1 = 0;
    curr_token = Token.invalid;
    curr_lexeme = [];
    curr_lex_state = LexState.no_string;
  };
  stack_size = 0;
  global_data_size = 0;
  is_main_func_present = false;
  main_func_index = 0;
  is_set_stack_size_found = false;
  instr_stream_size = 0;
  instr_stream = [];
  func_table = [];
  label_table = [];
  symbol_table = [];
  string_table = [];
  host_api_table = [];
  is_func_active = false;
  curr_func = none;
  curr_func_index = 99;
  curr_func_name = [];
  curr_func_local_data_size = 0;
  unset_string = 0;
  unset_size = 0;
  unset_op = record { kind = 0; value = 0; offset_index = 0 };
}

abbrev mov : AsmInstr
mov = record {
  asm_opcode = 0;
  asm_ops =
      record { kind = 8; value = 0; offset_index = 0 }
      ∷ record { kind = 0; value = 4294967295; offset_index = 0 }
      ∷ [];
}

abbrev je : AsmInstr
je = record {
  asm_opcode = 6;
  asm_ops =
      record { kind = 4; value = 4294967288; offset_index = 4294967284 }
      ∷ record { kind = 0; value = 7; offset_index = 0 }
      ∷ record { kind = 5; value = 0; offset_index = 0 }
      ∷ [];
}

abbrev old_instr : Instr
old_instr = record {
  op_code = 17;
  op_num = 0;
  op_list = replicate 4 (record { kind = 8; value = 3; offset_index = 9 });
}

decode-code_bytes_example :
    decode
      (take_chars instr_len (drop_chars (instr_len * 1) (code_bytes (mov ∷ je ∷ []))))
      old_instr
    ≡ some (fetched_instr je old_instr)
decode-code_bytes_example =
    decode-code_bytes (mov ∷ []) [] je old_instr
      (
        record {
          short = omega arith;
          ops = (
            record {
              typed = omega arith;
              no_ptr = omega arith;
              word = omega arith;
              offset = omega arith;
            },
            (
              record {
                typed = omega arith;
                no_ptr = omega arith;
                word = omega arith;
                offset = omega arith;
              },
              tt,
            ),
          );
          few = omega arith;
        },
        tt,
      )
      (record {
        short = omega arith;
        ops = (
          record {
            typed = omega arith;
            no_ptr = omega arith;
            word = omega arith;
            offset = omega arith;
          },
          (
            record {
              typed = omega arith;
              no_ptr = omega arith;
              word = omega arith;
              offset = omega arith;
            },
            (
              record {
                typed = omega arith;
                no_ptr = omega arith;
                word = omega arith;
                offset = omega arith;
              },
              tt,
            ),
          ),
        );
        few = omega arith;
      })
      refl

abbrev source : List Text
source = codes "FUNC MAIN\n" ∷ codes "{\n" ∷ codes "INT X\n" ∷ codes "MOV X, 5\n" ∷ codes "}\n" ∷ []

abbrev full_table : InstrTable
full_table = elim (init_instr_table blank_table) [ none ↦ blank_table | some t ↦ t ]

assmbl_source_file-IsTyped_example :
    Ends
      (λ b. All (IsTyped full_table) b.instr_stream)
      (assmbl_source_file full_table source new_asm)
assmbl_source_file-IsTyped_example =
    assmbl_source_file-IsTyped full_table source new_asm (omega arith) refl

add_string-place_example :
    let (table', index) = add_string (codes "go") (codes "stop" ∷ codes "hi" ∷ []) in
    ((rest : List ℕ) × (drop_chars index (string_bytes table')
        ≡ int_bytes 2 ++ (codes "go" ++ rest)))
    × ((new : List Text) × (table' ≡ (codes "stop" ∷ codes "hi" ∷ []) ++ new))
add_string-place_example = add_string-place (codes "go") (codes "stop" ∷ codes "hi" ∷ [])

abbrev old_symbol : SymbolNode
old_symbol = record {
  symbol_index = 0;
  symbol_ident = codes "X";
  symbol_type = 0;
  init_value = 0;
  is_arr = false;
  symbol_size = 4;
  stack_index = 4294967292;
  symbol_func = 0;
}

abbrev symbols : List SymbolNode
symbols = old_symbol ∷ []

add_symbol-IsFound_example :
    let (symbols', index) = add_symbol (codes "X") 0 0 false 4 4294967292 1 symbols in
    All (IsFound symbols') symbols'
    × (((index ≡ none)
          × (symbols' ≡ symbols)
          × (s : SymbolNode) × (get_symbol_by_ident (codes "X") 1 symbols ≡ some s))
        ⊎ ((index ≡ some 1)
            × (get_symbol_by_ident (codes "X") 1 symbols'
                ≡ some (record old_symbol { symbol_index = 1; symbol_func = 1 }))))
unfolding get_symbol_by_ident str_eq
add_symbol-IsFound_example =
    add_symbol-IsFound (codes "X") 0 0 false 4 4294967292 1 symbols (refl, tt)

inits_bound_example :
    ((n : ℕ) → n ≤ 15 → (t' : InstrTable) × (inits n blank_table ≡ some t'))
    × (inits 16 blank_table ≡ none)
inits_bound_example = inits_bound blank_table refl

string_at-escape_example :
    string_at blank_table
      (escape (codes "a\"b") ++ b'"' ∷ codes "\n")
      (record new_asm.lexer { index0 = 7; curr_lex_state = LexState.in_string })
    ≡ ok (
      Token.string,
      record new_asm.lexer {
        index0 = 7;
        index1 = 7 + length (escape (codes "a\"b"));
        curr_lexeme = codes "a\"b";
        curr_token = Token.string;
        curr_lex_state = LexState.in_string;
      },
    )
string_at-escape_example =
    string_at-escape blank_table (codes "a\"b") (codes "\n")
      (record new_asm.lexer { index0 = 7; curr_lex_state = LexState.in_string }) (omega arith)
      (omega arith) refl refl

abbrev remark : Text
remark = codes "Str s \"a;b\" ; c\n"

strip_from-IsBare_example :
    (IsBare false remark × (strip_from false remark ≡ remark))
    ⊎ ((front : Text) × (rest : Text) × (remark ≡ front ++ b';' ∷ rest)
        × IsBare false front
        × (quoted_after false front ≡ false)
        × (strip_from false remark ≡ front ++ b'\n' ∷ []))
strip_from-IsBare_example = strip_from-IsBare false remark refl

abbrev assembled : Asm
assembled = record new_asm { stack_size = 64; instr_stream_size = 1; instr_stream = mov ∷ [] }

abbrev image : List ℕ
image = header_bytes assembled ++ (int_bytes 1 ++ (code_bytes (mov ∷ []) ++ tables assembled))

build_fse-header_example :
    (header_of image ≡ header assembled)
    × (Loader.int_at image 20 ≡ 1)
    × (rest : List ℕ) × (drop_chars 24 image ≡ code_bytes (mov ∷ []) ++ rest)
unfolding build_fse
build_fse-header_example =
    build_fse-header assembled image
      (record {
        stack = omega arith;
        global = omega arith;
        main = omega arith;
        instrs = omega arith;
      })
      refl
