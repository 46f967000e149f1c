-- ===== src/Os/Compiler/Build/Assembled.antt =====
-- os/compiler/compiler.cpp and device/processor/processor.cpp: the code of a program that was
-- assembled, as the processor reads it.
use mathlib.Core.Option.{some-injective}
use ferry_os.Prelude.{
  ◌≢◌, ℕ, zero, suc, ◌*◌, ◌^◌, ◌≤◌, ◌<◌, ◌≡◌, refl, subst, Bool, true, false, ◌&&◌, ◌||◌, none,
  some, List, set, Option-cases, [], ◌∷◌, ◌++◌, arith, ltb, leb, length, All, Bool-cases, inl, inr,
}
use ferry_os.Machine.{Op, Instr}
use ferry_os.Device.Processor.Decode.{decode, instr_len}
use ferry_os.Os.Compiler.Text.{Text, str_eq, strupr}
use ferry_os.Os.Compiler.Outcome.{Outcome, ok, Ends, ends, fails, undef}
use ferry_os.Os.Compiler.InstrTable.{
  InstrTable, InstrLookup, instr_set, add_instr_lookup, add_instrs, init_instr_table, find_instr,
  get_instr_by_mnemonic, flag_mem_ref, flag_line_label, flag_func_name, flag_core_api_call,
}
use ferry_os.Os.Compiler.Lexer.{drop_chars, take_chars}
use ferry_os.Os.Compiler.State.{Asm, AsmInstr}
use ferry_os.Os.Compiler.SecondPass.{has, assmbl_source_file}
use ferry_os.Os.Compiler.SecondPass.Types.{
  IsAdmitted, an_int, a_string, a_place, a_label, a_function, a_call, a_register, left_unset,
  AreAdmitted, no_more, one_more, IsTyped,
}
use ferry_os.Os.Compiler.SecondPass.Whole.{assmbl_source_file-IsTyped}
use ferry_os.Os.Compiler.Build.{code_bytes}
use ferry_os.Os.Compiler.Build.Encoding.{IsOp}
use ferry_os.Os.Compiler.Build.Code.{IsInstr, fetched_instr, decode-code_bytes}

abbrev takes_ident : ℕ → Bool
takes_ident types =
    has types flag_mem_ref
    || has types flag_line_label
    || has types flag_func_name
    || has types flag_core_api_call

abbrev pub TakesIdent : ℕ → Type 0
TakesIdent types = takes_ident types ≡ true

-- An entry with a short as opcode and at most three operands, each of which may be an identifier.
pub record IsFit (e : InstrLookup) : Type 0 where
  pub short : e.opcode < 2 ^ 16
  pub few : length e.op_types ≤ 3
  pub idents : All TakesIdent e.op_types

-- An operand of two ints.
abbrev pub HasWords : Op → Type 0
HasWords op = (op.value < 2 ^ 32) × (op.offset_index < 2 ^ 32)

set-All {ℓ κ} :
    {A : Type ℓ} (P : A → Type κ) (xs : List A) (n : ℕ) (a : A)
    → All P xs
    → P a
    → All P (set xs n a)
set-All P [] n a h p = tt
set-All P (x ∷ xs) zero a (h, hs) p = (p, hs)
set-All P (x ∷ xs) (suc n) a (h, hs) p = (h, set-All P xs n a hs p)

-- The entry of an instruction that is added.
abbrev entry : Text × ℕ × List ℕ → InstrLookup
entry (name, code, types) = record { mnemonic = strupr name; opcode = code; op_types = types }

add_instr_lookup-IsFit :
    (name : Text) (code : ℕ) (types : List ℕ) (t t' : InstrTable)
    → IsFit (entry (name, code, types))
    → All IsFit t.entries
    → add_instr_lookup name code types t ≡ some t'
    → All IsFit t'.entries
unfolding add_instr_lookup
add_instr_lookup-IsFit name code [] t t' new h made = elim (Bool-cases (leb 256 t.next_instr)) [
  | inl full ↦
      let same : some t ≡ some t' = rw full at made in
      subst (λ u. All IsFit u.entries) (let e : t ≡ t' = cc in e) h
  | inr room ↦
      subst (λ u. All IsFit u.entries) (some-injective _ t' (rw room at made))
        (set-All IsFit t.entries t.next_instr (entry (name, code, [])) h new)
]
add_instr_lookup-IsFit name code (type ∷ types) t t' new h made =
    elim (Bool-cases (leb 256 t.next_instr)) [
      | inl full ↦ absurd (let bad : none ≡ some t' = rw full at made in cc)
      | inr room ↦
          subst (λ u. All IsFit u.entries) (some-injective _ t' (rw room at made))
            (set-All IsFit t.entries t.next_instr (entry (name, code, type ∷ types)) h new)
    ]

add_instrs-IsFit :
    (instrs : List (Text × ℕ × List ℕ)) (t t' : InstrTable)
    → All (λ i. IsFit (entry i)) instrs
    → All IsFit t.entries
    → add_instrs instrs t ≡ some t'
    → All IsFit t'.entries
unfolding add_instrs
add_instrs-IsFit [] t t' new h made = subst (λ u. All IsFit u.entries) (let e : t ≡ t' = cc in e) h
add_instrs-IsFit ((name, code, types) ∷ more) t t' (new, news) h made =
    elim (Option-cases (add_instr_lookup name code types t)) [
      | inl e ↦ absurd (let bad : none ≡ some t' = rw (e, add_instrs) at made in cc)
      | inr (u, e) ↦
          add_instrs-IsFit more u t' news (add_instr_lookup-IsFit name code types t u new h e)
            (rw (e, add_instrs) at made)
    ]

and_true : (a b : Bool) → (a && b) ≡ true → (a ≡ true) × (b ≡ true)
and_true true true h = (refl, refl)
and_true true false h = absurd (cc)
and_true false b h = absurd (cc)

abbrev all_take : List ℕ → Bool
all_take [] = true
all_take (types ∷ more) = takes_ident types && all_take more

abbrev all_fit : List (Text × ℕ × List ℕ) → Bool
all_fit [] = true
all_fit ((name, code, types) ∷ more) =
    (ltb code 65536 && (leb (length types) 3 && all_take types)) && all_fit more

all_take-TakesIdent : (masks : List ℕ) → all_take masks ≡ true → All TakesIdent masks
all_take-TakesIdent [] h = tt
all_take-TakesIdent (types ∷ more) h =
    let (one, rest) = and_true (takes_ident types) (all_take more) h in
    (one, all_take-TakesIdent more rest)

all_fit-IsFit :
    (instrs : List (Text × ℕ × List ℕ)) → all_fit instrs ≡ true → All (λ i. IsFit (entry i)) instrs
all_fit-IsFit [] h = tt
all_fit-IsFit ((name, code, types) ∷ more) h =
    let (one, rest) = and_true _ (all_fit more) h in
    let (short, ops) = and_true (ltb code 65536) _ one in
    let (few, idents) = and_true (leb (length types) 3) (all_take types) ops in
    (
      record {
        short = ground arith;
        few = ground arith;
        idents = all_take-TakesIdent types idents;
      },
      all_fit-IsFit more rest,
    )

-- `Init` enters fit instructions: a table of fit entries stays one.
pub init_instr_table-IsFit :
    (t t' : InstrTable) → All IsFit t.entries → init_instr_table t ≡ some t' → All IsFit t'.entries
unfolding init_instr_table
init_instr_table-IsFit t t' h made =
    add_instrs-IsFit instr_set t t' (all_fit-IsFit instr_set refl) h made

admitted_kind :
    {types kind : ℕ} → TakesIdent types → IsAdmitted types kind → (kind ≤ 8) × (kind ≢ 1)
admitted_kind h (an_int _) = (omega arith, λ e. absurd (omega arith))
admitted_kind h (a_string _) = (omega arith, λ e. absurd (omega arith))
admitted_kind h (a_place _) = (omega arith, λ e. absurd (omega arith))
admitted_kind h (a_label _) = (omega arith, λ e. absurd (omega arith))
admitted_kind h (a_function _) = (omega arith, λ e. absurd (omega arith))
admitted_kind h (a_call _) = (omega arith, λ e. absurd (omega arith))
admitted_kind h (a_register _) = (omega arith, λ e. absurd (omega arith))
admitted_kind h (left_unset _ mem label func api) =
    absurd (let bad : false ≡ true = rw (mem, label, func, api) at h in cc)

ops-IsOp :
    {masks : List ℕ} {ops : List Op}
    → AreAdmitted masks ops
    → All TakesIdent masks
    → All HasWords ops
    → All IsOp ops × (length ops ≡ length masks)
ops-IsOp no_more h w = (tt, refl)
ops-IsOp (one_more types op more ops p ps) (h, hs) ((value, offset), ws) =
    let (le, ne) = admitted_kind h p in
    let (rest, same) = ops-IsOp ps hs ws in
    ((record { typed = le; no_ptr = ne; word = value; offset = offset }, rest), omega arith)

find_instr-IsFit :
    (name : Text) (entries : List InstrLookup) (e : InstrLookup)
    → All IsFit entries
    → find_instr name entries ≡ some e
    → IsFit e
unfolding find_instr
find_instr-IsFit name [] e h found = absurd (cc)
find_instr-IsFit name (x ∷ entries) e (h, hs) found = elim (Bool-cases (str_eq x.mnemonic name)) [
  | inl hit ↦ let same : some x ≡ some e = rw hit at found in subst IsFit (cc) h
  | inr miss ↦ find_instr-IsFit name entries e hs (rw miss at found)
]

typed-IsInstr :
    (table : InstrTable) (i : AsmInstr)
    → All IsFit table.entries
    → All HasWords i.asm_ops
    → IsTyped table i
    → IsInstr i
unfolding get_instr_by_mnemonic
typed-IsInstr table i fit words (inl (name, e, found, code, admitted)) =
    let entry = find_instr-IsFit name table.entries e fit found in
    let (ops, same) = ops-IsOp admitted entry.idents words in
    record { short = omega (arith, entry.short); ops = ops; few = omega (arith, entry.few) }
typed-IsInstr table i fit words (inr (which, empty)) = record {
  short = elim which [ inl quit ↦ omega arith | inr ret ↦ omega arith ];
  ops = rw empty tt;
  few = rw empty (omega arith);
}

instrs-IsInstr :
    (table : InstrTable) (instrs : List AsmInstr)
    → All IsFit table.entries
    → All (λ i. All HasWords i.asm_ops) instrs
    → All (IsTyped table) instrs
    → All IsInstr instrs
instrs-IsInstr table [] fit words typed = tt
instrs-IsInstr table (i ∷ instrs) fit (w, ws) (t, ts) =
    (typed-IsInstr table i fit w t, instrs-IsInstr table instrs fit ws ts)

All-split {ℓ κ} :
    {A : Type ℓ} (P : A → Type κ) (xs : List A) (a : A) (ys : List A)
    → All P (xs ++ a ∷ ys)
    → All P xs × P a
All-split P [] a ys (h, hs) = (tt, h)
All-split P (x ∷ xs) a ys (h, hs) = let (front, at) = All-split P xs a ys hs in ((h, front), at)

Ends-value : {A : Type 0} {P : A → Type 0} {m : Outcome A} (b : A) → Ends P m → m ≡ ok b → P b
Ends-value {P = P} b (ends a p) e = subst P (cc) p
Ends-value b (fails f) e = absurd (cc)
Ends-value b undef e = absurd (cc)

-- When a source is assembled with a table whose entries are fit, as `Init` makes it, the processor
-- decodes each instruction of the program, at 32 times its index in the code, as it was assembled:
-- its operation, its operands and their values. The source has a line, there are no symbols at the
-- start, the values in the program are ints, and the list of the processor has four places.
pub decode-assmbl_source_file :
    (table : InstrTable) (lines : List Text) (a b : Asm) (before after : List AsmInstr)
    (i : AsmInstr) (old : Instr)
    → All IsFit table.entries
    → 0 < length lines
    → a.symbol_table ≡ []
    → assmbl_source_file table lines a ≡ ok b
    → All (λ i. All HasWords i.asm_ops) b.instr_stream
    → b.instr_stream ≡ before ++ i ∷ after
    → length old.op_list ≡ 4
    → decode
        (take_chars instr_len (drop_chars (instr_len * length before) (code_bytes b.instr_stream)))
        old
      ≡ some (fetched_instr i old)
decode-assmbl_source_file table lines a b before after i old fit some_line empty made words at
      four =
    let typed = Ends-value b (assmbl_source_file-IsTyped table lines a some_line empty) made in
    let instrs = instrs-IsInstr table b.instr_stream fit words typed in
    let (front, this) = All-split IsInstr before i after (subst (All IsInstr) at instrs) in
    rw at (decode-code_bytes before after i old front this four)
