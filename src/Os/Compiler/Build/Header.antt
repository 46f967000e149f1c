-- ===== src/Os/Compiler/Build/Header.antt =====
-- os/compiler/compiler.cpp and os/oscore/OSCore.cpp: the loader finds the header and the code where
-- the assembler writes them.
use ferry_os.Prelude.{
  ℕ, ◌^◌, ◌<◌, ◌≡◌, refl, subst, none, some, List, ◌++◌, arith, ◌==◌, length, Bool-cases, inl, inr,
}
use ferry_os.Os.Loader.{ExecFileHeader, header_of}
use ferry_os.Os.Loader
use ferry_os.Bytes.{int_bytes}
use ferry_os.Os.Compiler.Lexer.{drop_chars}
use ferry_os.Os.Compiler.State.{Asm}
use ferry_os.Os.Compiler.Build.{header_bytes, code_bytes, string_bytes, func_bytes, build_fse}
use ferry_os.Os.Compiler.Build.Encoding.{int_of_bytes-int_bytes}

abbrev pub header : Asm → ExecFileHeader
header a = record {
  version_major = 0;
  version_minor = 1;
  header_stack_size = a.stack_size;
  global_data_size = a.global_data_size;
  main_func_index = a.main_func_index;
}

-- The sizes are ints.
pub record IsWords (a : Asm) : Type 0 where
  pub stack : a.stack_size < 2 ^ 32
  pub global : a.global_data_size < 2 ^ 32
  pub main : a.main_func_index < 2 ^ 32
  pub instrs : a.instr_stream_size < 2 ^ 32

header_of-bytes :
    (a : Asm) (code rest : List ℕ)
    → IsWords a
    → let image = header_bytes a ++ (int_bytes a.instr_stream_size ++ (code ++ rest)) in
      (header_of image ≡ header a)
      × (Loader.int_at image 20 ≡ a.instr_stream_size)
      × (drop_chars 24 image ≡ code ++ rest)
unfolding header_bytes
header_of-bytes a code rest h = (
  ground (
    arith,
    int_of_bytes-int_bytes a.stack_size h.stack,
    int_of_bytes-int_bytes a.global_data_size h.global,
    int_of_bytes-int_bytes a.main_func_index h.main,
  ),
  int_of_bytes-int_bytes a.instr_stream_size h.instrs,
  refl,
)

abbrev pub tables : Asm → List ℕ
tables a =
    int_bytes (length a.string_table)
    ++ (string_bytes a.string_table
        ++ (int_bytes (length a.func_table)
            ++ (func_bytes a.func_table
                ++ (int_bytes (length a.host_api_table) ++ string_bytes a.host_api_table))))

-- In a file that is written, the loader reads the version 0.1 and the sizes of the header as they
-- are assembled, and the number of instructions behind it; their code follows.
pub build_fse-header :
    (a : Asm) (image : List ℕ)
    → IsWords a
    → build_fse a ≡ some image
    → (header_of image ≡ header a)
      × (Loader.int_at image 20 ≡ a.instr_stream_size)
      × (rest : List ℕ) × (drop_chars 24 image ≡ code_bytes a.instr_stream ++ rest)
unfolding build_fse
build_fse-header a image h e = elim (Bool-cases (length a.instr_stream == a.instr_stream_size)) [
  | inl all ↦
      let bytes =
        header_bytes a
        ++ (int_bytes a.instr_stream_size ++ (code_bytes a.instr_stream ++ tables a)) in
      let written : some bytes ≡ some image = rw (all, build_fse) at e in
      let same : bytes ≡ image = cc in
      let (head, num, code) = header_of-bytes a (code_bytes a.instr_stream) (tables a) h in
      subst
        (λ im.
          (header_of im ≡ header a)
          × (Loader.int_at im 20 ≡ a.instr_stream_size)
          × (rest : List ℕ) × (drop_chars 24 im ≡ code_bytes a.instr_stream ++ rest))
        same (head, num, tables a, code)
  | inr missing ↦ absurd (let bad : none ≡ some image = rw (missing, build_fse) at e in cc)
]
