-- ===== src/Os/Compiler/Build/Code.antt =====
-- os/compiler/compiler.cpp and device/processor/processor.cpp: the processor finds an instruction of
-- the code at 32 times its index.
use mathlib.Core.List.{append_assoc}
use ferry_os.Prelude.{
  ℕ, zero, suc, ◌+◌, ◌-◌, ◌*◌, ◌%◌, ◌^◌, ◌≤◌, ◌<◌, ◌≡◌, refl, sym, ap, ◌∙◌, some, List, [], ◌∷◌,
  ◌++◌, arith, length, length-append, get_or, replicate, All,
}
use ferry_os.Machine.{Op, Instr}
use ferry_os.Device.Processor.Decode.{decode_ops, decode, instr_len}
use ferry_os.Os.Compiler.Lexer.{drop_chars, take_chars}
use ferry_os.Os.Compiler.State.{AsmInstr}
use ferry_os.Os.Compiler.Build.{value_bytes, ops_bytes, head_bytes, instr_bytes, code_bytes}
use ferry_os.Os.Compiler.Build.Encoding.{IsOp, fetched, decode_ops-append, length-ops_bytes}

-- An instruction with at most three operands, as all in the table are.
pub record IsInstr (i : AsmInstr) : Type 0 where
  pub short : i.asm_opcode < 2 ^ 16
  pub ops : All IsOp i.asm_ops
  pub few : length i.asm_ops ≤ 3

-- An instruction as the processor keeps it.
abbrev pub fetched_instr : AsmInstr → Instr → Instr
fetched_instr i old = record {
  op_code = i.asm_opcode;
  op_num = length i.asm_ops;
  op_list = fetched i.asm_ops old.op_list;
}

length-value_bytes : (op : Op) → length (value_bytes op) ≤ 8
unfolding value_bytes
length-value_bytes op = ground arith

length-ops_bytes_le : (ops : List Op) → length (ops_bytes ops) ≤ 9 * length ops
unfolding ops_bytes
length-ops_bytes_le [] = omega arith
length-ops_bytes_le (op ∷ ops) =
    omega (arith, length-ops_bytes op ops, length-value_bytes op, length-ops_bytes_le ops)

length-replicate {ℓ} : {A : Type ℓ} (n : ℕ) (a : A) → length (replicate n a) ≡ n
length-replicate zero a = refl
length-replicate (suc n) a = ap suc (length-replicate n a)

abbrev body : AsmInstr → List ℕ
body i = head_bytes i ++ ops_bytes i.asm_ops

length-instr_bytes : (i : AsmInstr) → IsInstr i → length (instr_bytes i) ≡ 32
unfolding instr_bytes
length-instr_bytes i h =
    let ops = ops_bytes i.asm_ops in
    let fill : List ℕ = replicate (instr_len - length (head_bytes i ++ ops)) 0 in
    omega (
      arith,
      length-append (head_bytes i ++ ops) fill,
      length-replicate {A = ℕ} (instr_len - length (head_bytes i ++ ops)) 0,
      length-ops_bytes_le i.asm_ops,
      h.few,
    )

decode_parts :
    (ir : List ℕ) (old : Instr) (o n : ℕ) (ops : List Op)
    → get_or ir 0 0 + 256 * get_or ir 1 0 ≡ o
    → get_or ir 2 0 ≡ n
    → decode_ops n 0 ir 3 old.op_list ≡ some ops
    → decode ir old ≡ some (record { op_code = o; op_num = n; op_list = ops })
unfolding decode
decode_parts ir old o n ops code num e = rw (num, decode) (rw (e, code) (rw num refl))

-- The processor takes apart the bytes of an instruction as it was assembled.
decode-instr_bytes :
    (i : AsmInstr) (old : Instr)
    → IsInstr i
    → length old.op_list ≡ 4
    → decode (instr_bytes i) old ≡ some (fetched_instr i old)
unfolding instr_bytes
decode-instr_bytes i old h four =
    let fill : List ℕ = replicate (instr_len - length (body i)) 0 in
    let num : length i.asm_ops % 256 ≡ length i.asm_ops = omega (arith, h.few) in
    decode_parts (head_bytes i ++ (ops_bytes i.asm_ops ++ fill)) old i.asm_opcode (length i.asm_ops)
      (fetched i.asm_ops old.op_list) (omega (arith, h.short)) num
      (decode_ops-append i.asm_ops old.op_list [] (head_bytes i) fill 0 3 h.ops
        (omega (arith, h.few)) (omega arith) (omega arith) (omega arith)
        (omega (arith, length-ops_bytes_le i.asm_ops, h.few)))

length-code_bytes :
    (instrs : List AsmInstr) → All IsInstr instrs → length (code_bytes instrs) ≡ 32 * length instrs
unfolding code_bytes
length-code_bytes [] h = omega arith
length-code_bytes (i ∷ instrs) (h, hs) = omega (
  arith,
  length-append (instr_bytes i) (code_bytes instrs),
  length-instr_bytes i h,
  length-code_bytes instrs hs,
)

code_bytes-append :
    (before after : List AsmInstr)
    → code_bytes (before ++ after) ≡ code_bytes before ++ code_bytes after
unfolding code_bytes
code_bytes-append [] after = refl
code_bytes-append (i ∷ before) after =
    ap (λ bytes. instr_bytes i ++ bytes) (code_bytes-append before after)
    ∙ sym (append_assoc (instr_bytes i) (code_bytes before) (code_bytes after))

drop_chars-append : (n : ℕ) (xs ys : List ℕ) → n ≡ length xs → drop_chars n (xs ++ ys) ≡ ys
drop_chars-append zero [] ys h = refl
drop_chars-append zero (x ∷ xs) ys h = absurd (omega arith)
drop_chars-append (suc n) [] ys h = absurd (omega arith)
drop_chars-append (suc n) (x ∷ xs) ys h = drop_chars-append n xs ys (omega arith)

pub take_chars-append : (n : ℕ) (xs ys : List ℕ) → n ≡ length xs → take_chars n (xs ++ ys) ≡ xs
take_chars-append zero [] ys h = refl
take_chars-append zero (x ∷ xs) ys h = absurd (omega arith)
take_chars-append (suc n) [] ys h = absurd (omega arith)
take_chars-append (suc n) (x ∷ xs) ys h = ap (λ l. x ∷ l) (take_chars-append n xs ys (omega arith))

-- The 32 bytes at 32 times the index of an instruction in the code are taken apart by the processor
-- as that instruction: its operation, its operands and their values, for a list of four places. The
-- instructions have at most three operands, of types that the assembler gives.
pub decode-code_bytes :
    (before after : List AsmInstr) (i : AsmInstr) (old : Instr)
    → All IsInstr before
    → IsInstr i
    → length old.op_list ≡ 4
    → decode
        (take_chars instr_len
          (drop_chars (instr_len * length before) (code_bytes (before ++ i ∷ after))))
        old
      ≡ some (fetched_instr i old)
unfolding code_bytes
decode-code_bytes before after i old hs h four =
    let front = code_bytes-append before (i ∷ after) in
    let rest =
      drop_chars-append (instr_len * length before) (code_bytes before) (code_bytes (i ∷ after))
        (sym (length-code_bytes before hs)) in
    let here =
      take_chars-append instr_len (instr_bytes i) (code_bytes after)
        (sym (length-instr_bytes i h)) in
    rw (front, rest, here) (decode-instr_bytes i old h four)
