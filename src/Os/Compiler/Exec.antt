-- ===== src/Os/Compiler/Exec.antt =====
-- os/compiler/compiler.cpp: `Init`, `SetSourceFileName` and `Exec`, on the assembler that lives on.
-- The files of the host, the paths that they have, and what new memory holds are arguments.
use ferry_os.Prelude.{ℕ, Bool, Option, none, some, List, [], ◌∷◌, ◌++◌, ◌==◌, if◌then◌else◌, length}
use ferry_os.Os.Compiler.Text.{Text, codes, strupr}
use ferry_os.Os.Compiler.Outcome.{Outcome, ok, failed, CompileErr, defined, ◌>>=◌}
use ferry_os.Os.Compiler.InstrTable.{InstrTable, init_instr_table}
use ferry_os.Os.Compiler.Source.{load_source_file}
use ferry_os.Os.Compiler.State.{Asm}
use ferry_os.Os.Compiler.SecondPass.{assmbl_source_file}
use ferry_os.Os.Compiler.Build.{build_fse}
use ferry_os.Os.Loader.{contains}

-- The members of FASM that a later call finds as they are.
pub record Fasm : Type 0 where
  pub instr_table : InstrTable
  pub source_code_size : ℕ
  pub asm : Asm

abbrev source_file_ext : Text
source_file_ext = codes ".FASM"

abbrev with_ext : Text → Text → Text
with_ext ext name = if contains ext name then name else name ++ ext

-- `strrchr` of a dot: the name in front of the last one.
unfoldable pub before_last_dot : Text → Option Text
before_last_dot [] = none
before_last_dot (c ∷ s) = elim (before_last_dot s) [
  | some front ↦ some (c ∷ front)
  | none ↦ if c == b'.' then some [] else none
]

-- The names of the source and of the executable file, all in upper case; `ext` is `EXEC_FILE_EXT`.
unfoldable pub set_source_file_name : Text → Text → Text → Outcome (Text × Text)
unfolding strupr before_last_dot
set_source_file_name ext src [] =
    let source = with_ext source_file_ext (strupr src) in
    defined (before_last_dot source) >>= λ front. ok (source, front ++ ext)
set_source_file_name ext src (c ∷ dest) =
    ok (with_ext source_file_ext (strupr src), with_ext ext (strupr (c ∷ dest)))

unfoldable pub init : Fasm → Outcome Fasm
unfolding init_instr_table
init f = defined (init_instr_table f.instr_table) >>= λ table. ok (record f {
  instr_table = table;
  asm = record f.asm {
    symbol_table = [];
    label_table = [];
    func_table = [];
    string_table = [];
    host_api_table = [];
  };
})

-- The bytes of the executable file. `found` is what the memory of a line holds, `writable` whether
-- the executable file can be opened.
unfoldable pub exec : (ℕ → Text) → Bool → Option Text → Fasm → Outcome (List ℕ × Fasm)
unfolding init load_source_file assmbl_source_file build_fse
exec found writable file f = init f >>= λ g.
    load_source_file found g.source_code_size file >>= λ lines.
    assmbl_source_file g.instr_table lines g.asm >>= λ a.
    if writable
    then (defined (build_fse a) >>= λ bytes.
        ok (bytes, record g { source_code_size = length lines; asm = a }))
    else failed CompileErr.build_file_failed
