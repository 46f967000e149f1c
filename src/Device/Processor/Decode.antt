-- ===== src/Device/Processor/Decode.antt =====
-- device/processor/processor.cpp: `fetchIstr` reads 32 bytes and takes them apart.
use ferry_os.Prelude.{
  ℕ, zero, suc, ◌+◌, ◌*◌, Option, none, some, List, [], ◌∷◌, ltb, leb, ◌==◌, if◌then◌else◌, get_or,
  set, ◌||◌,
}
use ferry_os.Prelude.Words.{add32}
use ferry_os.Bytes.{int_of_bytes}
use ferry_os.Device.Mmu.State.{Mmu}
use ferry_os.Device.Mmu.Access.{read_byte}
use ferry_os.Machine.{M, Op, Instr, curr_pid}

-- `INSTR_LEN`
abbrev pub instr_len : ℕ
instr_len = 32

-- `memcpy` of an int out of the buffer; none where it would read behind its end.
unfoldable pub int_at : List ℕ → ℕ → Option ℕ
int_at ir count =
    if leb (count + 4) instr_len
    then some (
        int_of_bytes (get_or ir count 0) (get_or ir (count + 1) 0) (get_or ir (count + 2) 0)
          (get_or ir (count + 3) 0))
    else none

abbrev pub no_op : Op
no_op = record { kind = 0; value = 0; offset_index = 0 }

-- One operand of the type `kind`, whose bytes start at `count`: the new operand and the count behind
-- it. `OP_TYPE_PTR` and an unknown type leave the value of the previous instruction.
unfoldable pub decode_op : ℕ → List ℕ → ℕ → Op → Option (Op × ℕ)
unfolding int_at
decode_op kind ir count op =
    if kind == 1
    then some (record op { kind = kind }, count + 4)
    else if kind == 4
    then elim (int_at ir count) [
      | none ↦ none
      | some v ↦ elim (int_at ir (count + 4)) [
        | none ↦ none
        | some o ↦ some (record { kind = kind; value = v; offset_index = o }, count + 8)
      ]
    ]
    else if ltb 8 kind
    then some (record op { kind = kind }, count)
    else elim (int_at ir count) [
      | none ↦ none
      | some v ↦ some (record op { kind = kind; value = v }, count + 4)
    ]

-- The loop over the operands, from `index` on with `n` left; `mOpList` has four places.
unfoldable pub decode_ops : ℕ → ℕ → List ℕ → ℕ → List Op → Option (List Op)
unfolding decode_op
decode_ops zero index ir count ops = some ops
decode_ops (suc n) index ir count ops =
    if leb 4 index || leb instr_len count
    then none
    else elim (decode_op (get_or ir count 0) ir (count + 1) (get_or ops index no_op)) [
      | none ↦ none
      | some (op, count') ↦ decode_ops n (index + 1) ir count' (set ops index op)
    ]

unfoldable pub decode : List ℕ → Instr → Option Instr
unfolding decode_ops
decode ir old =
    let op_num = get_or ir 2 0 in
    elim (decode_ops op_num 0 ir 3 old.op_list) [
      | none ↦ none
      | some ops ↦
          some (record {
            op_code = get_or ir 0 0 + 256 * get_or ir 1 0;
            op_num = op_num;
            op_list = ops;
          })
    ]

-- The bytes from `index` on with `n` left; the address is an unsigned int.
unfoldable pub read_bytes : ℕ → ℕ → ℕ → ℕ → Mmu → Option (List ℕ × Mmu)
read_bytes zero index pid base s = some ([], s)
read_bytes (suc n) index pid base s = elim (read_byte pid (add32 base index) s) [
  | none ↦ none
  | some (b, s') ↦ elim (read_bytes n (index + 1) pid base s') [
    | none ↦ none
    | some (bs, last) ↦ some (b ∷ bs, last)
  ]
]

unfoldable pub fetch_instr : M Mmu (Unit {0})
unfolding read_bytes decode curr_pid
fetch_instr m = elim (curr_pid m) [
  | none ↦ none
  | some (pid, _) ↦ elim (read_bytes instr_len 0 pid (add32 m.cpu.cs m.cpu.pc) m.mem) [
    | none ↦ none
    | some (ir, s) ↦ elim (decode ir m.cpu.ir) [
      | none ↦ none
      | some instr ↦ some (
        tt,
        record m { cpu = record m.cpu { ir = instr; pc = add32 m.cpu.pc instr_len }; mem = s },
      )
    ]
  ]
]
