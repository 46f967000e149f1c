-- ===== src/Os/Compiler/Build.antt =====
-- os/compiler/compiler.cpp: `BuildFSE`, the bytes of the executable file.
pub mod Encoding
pub mod Code
pub mod Header
pub mod Assembled
pub mod Strings
use Prim.Native.String.{String}
use ferry_os.Prelude.{
  ℕ, zero, suc, ◌+◌, ◌-◌, ◌/◌, ◌%◌, Bool, true, false, Option, none, some, List, [], ◌∷◌, ◌++◌, ltb,
  ◌==◌, if◌then◌else◌, length, replicate,
}
use ferry_os.Bytes.{int_bytes}
use ferry_os.Machine.{Op}
use ferry_os.Device.Processor.Decode.{instr_len}
use ferry_os.Os.Compiler.Text.{Text, codes}
use ferry_os.Os.Compiler.Tables.{FuncNode}
use ferry_os.Os.Compiler.State.{Asm, AsmInstr}

abbrev pub short_bytes : ℕ → List ℕ
short_bytes w = w % 256 ∷ w / 256 % 256 ∷ []

-- The bytes behind the type of an operand; those of no listed type have none.
unfoldable pub value_bytes : Op → List ℕ
value_bytes op =
    if op.kind == 4
    then int_bytes op.value ++ int_bytes op.offset_index
    else if op.kind == 1
    then []
    else if ltb 8 op.kind
    then []
    else int_bytes op.value

unfoldable pub op_bytes : Op → List ℕ
unfolding value_bytes
op_bytes op = op.kind % 256 ∷ value_bytes op

unfoldable pub ops_bytes : List Op → List ℕ
unfolding op_bytes
ops_bytes [] = []
ops_bytes (op ∷ ops) = op_bytes op ++ ops_bytes ops

abbrev head_bytes : AsmInstr → List ℕ
head_bytes i = short_bytes i.asm_opcode ++ length i.asm_ops % 256 ∷ []

-- An instruction, filled up with zeros to `INSTR_LEN` bytes where it has fewer.
unfoldable pub instr_bytes : AsmInstr → List ℕ
unfolding ops_bytes
instr_bytes i =
    let body = head_bytes i ++ ops_bytes i.asm_ops in body ++ replicate (instr_len - length body) 0

unfoldable pub code_bytes : List AsmInstr → List ℕ
unfolding instr_bytes
code_bytes [] = []
code_bytes (i ∷ instrs) = instr_bytes i ++ code_bytes instrs

-- The tables of strings and of the names of system calls: each string behind its length.
unfoldable pub string_bytes : List Text → List ℕ
string_bytes [] = []
string_bytes (s ∷ strings) = int_bytes (length s) ++ (s ++ string_bytes strings)

unfoldable pub func_bytes : List FuncNode → List ℕ
func_bytes [] = []
func_bytes (f ∷ funcs) =
    int_bytes f.entry_point ++ (int_bytes f.local_data_size ++ func_bytes funcs)

-- The id `FSE0`, the version 0.1 and the sizes of the header.
unfoldable pub header_bytes : Asm → List ℕ
header_bytes a =
    codes "FSE0"
    ++ (short_bytes 0
        ++ (short_bytes 1
            ++ (int_bytes a.stack_size
                ++ (int_bytes a.global_data_size ++ int_bytes a.main_func_index))))

-- None where the first pass has counted more instructions than the second has written, and unset
-- memory is followed.
unfoldable pub build_fse : Asm → Option (List ℕ)
build_fse a =
    if length a.instr_stream == a.instr_stream_size
    then some (
        header_bytes a
        ++ (int_bytes a.instr_stream_size
            ++ (code_bytes a.instr_stream
                ++ (int_bytes (length a.string_table)
                    ++ (string_bytes a.string_table
                        ++ (int_bytes (length a.func_table)
                            ++ (func_bytes a.func_table
                                ++ (int_bytes (length a.host_api_table)
                                    ++ string_bytes a.host_api_table))))))))
    else none
