-- ===== src/Os/Compiler/Build/Encoding.antt =====
-- os/compiler/compiler.cpp and device/processor/processor.cpp: the processor reads the instructions
-- that the assembler writes.
use mathlib.Core.List.{append_assoc}
use ferry_os.Prelude.{
  ℕ, zero, suc, ◌+◌, ◌/◌, ◌%◌, ◌^◌, ◌≤◌, ◌<◌, ◌≡◌, ◌≢◌, refl, sym, ap, ◌∙◌, some, List, [], ◌∷◌,
  ◌++◌, arith, ◌==◌, if◌then◌else◌, length, length-append, get_or, set, All, Bool-cases, inl, inr,
}
use ferry_os.Bytes.{int_bytes, int_of_bytes}
use ferry_os.Machine.{Op}
use ferry_os.Device.Processor.Decode.{int_at, decode_op, decode_ops, no_op}
use ferry_os.Os.Compiler.Build.{false, value_bytes, op_bytes, ops_bytes}

-- An operand of a type that the assembler gives, with ints.
pub record IsOp (op : Op) : Type 0 where
  pub typed : op.kind ≤ 8
  pub no_ptr : op.kind ≢ 1
  pub word : op.value < 2 ^ 32
  pub offset : op.offset_index < 2 ^ 32

-- What the processor makes of a place of its list: the offset is read with type 4 alone.
abbrev pub fetched_op : Op → Op → Op
fetched_op old op = if op.kind == 4 then op else record old { kind = op.kind; value = op.value }

abbrev pub fetched : List Op → List Op → List Op
fetched [] olds = olds
fetched (op ∷ ops) [] = []
fetched (op ∷ ops) (old ∷ olds) = fetched_op old op ∷ fetched ops olds

module _ {ℓ} {A : Type ℓ} where
  pub get_or-append :
      (xs ys : List A) (i k : ℕ) (d : A) → i ≡ length xs + k → get_or (xs ++ ys) i d ≡ get_or ys k d
  get_or-append [] ys i k d h = let e : i ≡ k = omega arith in ap (λ n. get_or ys n d) e
  get_or-append (x ∷ xs) ys zero k d h = absurd (omega arith)
  get_or-append (x ∷ xs) ys (suc i) k d h = get_or-append xs ys i k d (omega arith)

  set-append :
      (xs ys : List A) (y v : A) (i : ℕ) → i ≡ length xs → set (xs ++ y ∷ ys) i v ≡ xs ++ v ∷ ys
  set-append [] ys y v i h = let e : i ≡ 0 = omega arith in ap (λ n. set (y ∷ ys) n v) e
  set-append (x ∷ xs) ys y v zero h = absurd (omega arith)
  set-append (x ∷ xs) ys y v (suc i) h = ap (λ l. x ∷ l) (set-append xs ys y v i (omega arith))

pub int_of_bytes-int_bytes :
    (v : ℕ)
    → v < 2 ^ 32
    → int_of_bytes (v % 256) (v / 256 % 256) (v / 65536 % 256) (v / 16777216 % 256) ≡ v
int_of_bytes-int_bytes v h = omega arith

-- An int that stands in the bytes of an instruction.
int_at-append :
    (pre post : List ℕ) (v i : ℕ)
    → v < 2 ^ 32
    → i ≡ length pre
    → i + 4 ≤ 32
    → int_at (pre ++ (int_bytes v ++ post)) i ≡ some v
unfolding int_at
int_at-append pre post v i h at_pre room =
    let bytes = int_bytes v ++ post in
    ground (
      arith,
      get_or-append pre bytes i 0 0,
      get_or-append pre bytes (i + 1) 1 0,
      get_or-append pre bytes (i + 2) 2 0,
      get_or-append pre bytes (i + 3) 3 0,
      int_of_bytes-int_bytes v h,
    )

decode_op-plain :
    (kind v i : ℕ) (ir : List ℕ) (old : Op)
    → kind ≤ 8
    → kind ≢ 1
    → (kind == 4) ≡ false
    → int_at ir i ≡ some v
    → decode_op kind ir i old ≡ some (record old { kind = kind; value = v }, i + 4)
unfolding decode_op
decode_op-plain kind v i ir old le ne plain e = ground arith

decode_op-relative :
    (kind v o i : ℕ) (ir : List ℕ) (old : Op)
    → kind ≡ 4
    → int_at ir i ≡ some v
    → int_at ir (i + 4) ≡ some o
    → decode_op kind ir i old ≡ some (record { kind = kind; value = v; offset_index = o }, i + 8)
unfolding decode_op
decode_op-relative kind v o i ir old four e f = ground arith

relative_bytes :
    (op : Op) → op.kind ≡ 4 → value_bytes op ≡ int_bytes op.value ++ int_bytes op.offset_index
unfolding value_bytes
relative_bytes op h = rw h refl

plain_bytes : (op : Op) → IsOp op → (op.kind == 4) ≡ false → value_bytes op ≡ int_bytes op.value
unfolding value_bytes
plain_bytes op h plain = ground arith

-- One operand, behind its type.
decode_op-append :
    (pre post : List ℕ) (op old : Op) (i : ℕ)
    → IsOp op
    → i ≡ length pre
    → i + length (value_bytes op) ≤ 32
    → decode_op op.kind (pre ++ (value_bytes op ++ post)) i old
      ≡ some (fetched_op old op, i + length (value_bytes op))
decode_op-append pre post op old i h at_pre room = elim (Bool-cases (op.kind == 4)) [
  | inl relative ↦
      let four : op.kind ≡ 4 = ground arith in
      let bytes = relative_bytes op four in
      let int1 =
        int_at-append pre (int_bytes op.offset_index ++ post) op.value i h.word at_pre
          (omega (arith, ap length bytes)) in
      let int2 =
        int_at-append (pre ++ int_bytes op.value) post op.offset_index (i + 4) h.offset
          (omega (arith, length-append pre (int_bytes op.value)))
          (omega (arith, ap length bytes)) in
      let second = append_assoc pre (int_bytes op.value) (int_bytes op.offset_index ++ post) in
      rw (bytes, relative)
        (decode_op-relative op.kind op.value op.offset_index i _ old four int1
          (ap (λ ir. int_at ir (i + 4)) (sym second) ∙ int2))
  | inr plain ↦
      let bytes = plain_bytes op h plain in
      let int1 = int_at-append pre post op.value i h.word at_pre (omega (arith, ap length bytes)) in
      rw (bytes, plain) (decode_op-plain op.kind op.value i _ old h.typed h.no_ptr plain int1)
]

decode_ops-step :
    (n index count count' : ℕ) (ir : List ℕ) (ops : List Op) (op : Op)
    → index < 4
    → count < 32
    → decode_op (get_or ir count 0) ir (count + 1) (get_or ops index no_op) ≡ some (op, count')
    → decode_ops (suc n) index ir count ops ≡ decode_ops n (index + 1) ir count' (set ops index op)
unfolding decode_ops
decode_ops-step n index count count' ir ops op lt room e = ground arith

-- The same with its type, for a place of the list.
decode_op-typed :
    (pre post : List ℕ) (op old : Op) (filled rest : List Op) (index count : ℕ)
    → IsOp op
    → index ≡ length filled
    → count ≡ length pre
    → count + 1 + length (value_bytes op) ≤ 32
    → let ir = pre ++ (op.kind % 256) ∷ (value_bytes op ++ post) in
      decode_op (get_or ir count 0) ir (count + 1) (get_or (filled ++ old ∷ rest) index no_op)
      ≡ some (fetched_op old op, count + 1 + length (value_bytes op))
decode_op-typed pre post op old filled rest index count h at_f at_pre room =
    let kind =
      get_or-append pre ((op.kind % 256) ∷ (value_bytes op ++ post)) count 0 0 (omega arith) in
    let byte : op.kind % 256 ≡ op.kind = omega (arith, h.typed) in
    let place = get_or-append filled (old ∷ rest) index 0 no_op (omega arith) in
    let front = append_assoc pre ((op.kind % 256) ∷ []) (value_bytes op ++ post) in
    let value =
      decode_op-append (pre ++ (op.kind % 256) ∷ []) post op old (count + 1) h
        (omega (arith, length-append pre ((op.kind % 256) ∷ []))) room in
    rw (kind, place, byte) (rw (front, byte) at value)

ops_bytes-cons :
    (op : Op) (ops : List Op) (post : List ℕ)
    → ops_bytes (op ∷ ops) ++ post ≡ (op.kind % 256) ∷ (value_bytes op ++ (ops_bytes ops ++ post))
unfolding ops_bytes op_bytes
ops_bytes-cons op ops post =
    ap (λ bytes. (op.kind % 256) ∷ bytes) (append_assoc (value_bytes op) (ops_bytes ops) post)

pub length-ops_bytes :
    (op : Op) (ops : List Op)
    → length (ops_bytes (op ∷ ops)) ≡ 1 + length (value_bytes op) + length (ops_bytes ops)
unfolding ops_bytes op_bytes
length-ops_bytes op ops = omega (arith, length-append (value_bytes op) (ops_bytes ops))

-- The operands of an instruction, behind the bytes `pre` of it and the places `filled` of the list.
pub decode_ops-append :
    (ops rest filled : List Op) (pre post : List ℕ) (index count : ℕ)
    → All IsOp ops
    → length ops ≤ length rest
    → index ≡ length filled
    → index + length rest ≤ 4
    → count ≡ length pre
    → count + length (ops_bytes ops) ≤ 32
    → decode_ops (length ops) index (pre ++ (ops_bytes ops ++ post)) count (filled ++ rest)
      ≡ some (filled ++ fetched ops rest)
decode_ops-append [] rest filled pre post index count h le at_f four at_pre room =
    unfold decode_ops in refl
decode_ops-append (op ∷ ops) [] filled pre post index count h le at_f four at_pre room =
    absurd (omega arith)
decode_ops-append (op ∷ ops) (old ∷ rest) filled pre post index count (h, hs) le at_f four at_pre
      room =
    let end = ops_bytes ops ++ post in
    let bytes = (op.kind % 256) ∷ value_bytes op in
    let new = fetched_op old op in
    let more =
      decode_ops-append ops rest (filled ++ new ∷ []) (pre ++ bytes) post (index + 1)
        (count + 1 + length (value_bytes op)) hs (omega arith)
        (omega (arith, length-append filled (new ∷ []))) (omega arith)
        (omega (arith, length-append pre bytes)) (omega (arith, length-ops_bytes op ops)) in
    let one =
      decode_op-typed pre end op old filled rest index count h at_f at_pre
        (omega (arith, length-ops_bytes op ops)) in
    ap (λ bytes. decode_ops (suc (length ops)) index (pre ++ bytes) count (filled ++ old ∷ rest))
      (ops_bytes-cons op ops post)
    ∙ decode_ops-step (length ops) index count _ _ _ _ (omega arith)
        (omega (arith, length-ops_bytes op ops)) one
    ∙ rw (set-append filled rest old new index at_f) (
        rw
          (
            append_assoc pre bytes end,
            append_assoc filled (new ∷ []) rest,
            append_assoc filled (new ∷ []) (fetched ops rest),
          )
          at more)
