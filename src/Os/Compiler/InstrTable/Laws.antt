-- ===== src/Os/Compiler/InstrTable/Laws.antt =====
-- os/compiler/compiler.cpp: how often `Init` can add the instructions to the one table.
use ferry_os.Prelude.{
  ℕ, zero, suc, ◌+◌, ◌*◌, ◌≤◌, ◌<◌, ◌≡◌, refl, ap, ◌∙◌, Option, none, some, List, [], ◌∷◌, arith,
  length, set, Option-cases, inl, inr,
}
use ferry_os.Os.Compiler.Text.{Text, strupr}
use ferry_os.Os.Compiler.InstrTable.{
  InstrTable, add_instr_lookup, add_instrs, instr_set, init_instr_table,
}

-- A number of calls of `Init`.
unfoldable pub inits : ℕ → InstrTable → Option InstrTable
inits zero t = some t
inits (suc n) t = elim (init_instr_table t) [ none ↦ none | some t' ↦ inits n t' ]

added : Text → ℕ → List ℕ → InstrTable → InstrTable
added name code types t = record {
  entries =
      set t.entries t.next_instr
        (record { mnemonic = strupr name; opcode = code; op_types = types });
  next_instr = t.next_instr + 1;
}

next-added :
    (name : Text) (code : ℕ) (types : List ℕ) (t : InstrTable)
    → (added name code types t).next_instr ≡ t.next_instr + 1
unfolding added
next-added name code types t = refl

add_instr_lookup_room :
    (name : Text) (code : ℕ) (types : List ℕ) (t : InstrTable)
    → t.next_instr < 256
    → add_instr_lookup name code types t ≡ some (added name code types t)
unfolding add_instr_lookup added
add_instr_lookup_room name code [] t room = ground arith
add_instr_lookup_room name code (type ∷ types) t room = ground arith

add_instr_lookup_full :
    (name : Text) (code type : ℕ) (types : List ℕ) (t : InstrTable)
    → 256 ≤ t.next_instr
    → add_instr_lookup name code (type ∷ types) t ≡ none
unfolding add_instr_lookup
add_instr_lookup_full name code type types t full = ground arith

add_instrs-next :
    (instrs : List (Text × ℕ × List ℕ)) (t : InstrTable)
    → t.next_instr + length instrs ≤ 256
    → (t' : InstrTable) × (add_instrs instrs t ≡ some t')
      × (t'.next_instr ≡ t.next_instr + length instrs)
unfolding add_instrs
add_instrs-next [] t room = (t, refl, omega arith)
add_instrs-next ((name, code, types) ∷ more) t room =
    let one = next-added name code types t in
    let (t', made, next) = add_instrs-next more (added name code types t) (omega (arith, one)) in
    (
      t',
      rw (add_instr_lookup_room name code types t (omega arith), add_instrs) made,
      omega (arith, one),
    )

init-next :
    (t : InstrTable)
    → t.next_instr + 17 ≤ 256
    → (t' : InstrTable) × (init_instr_table t ≡ some t') × (t'.next_instr ≡ t.next_instr + 17)
unfolding init_instr_table
init-next t room = add_instrs-next instr_set t room

inits-next :
    (n : ℕ) (t : InstrTable)
    → t.next_instr + 17 * n ≤ 256
    → (t' : InstrTable) × (inits n t ≡ some t') × (t'.next_instr ≡ t.next_instr + 17 * n)
unfolding inits
inits-next zero t room = (t, refl, omega arith)
inits-next (suc n) t room =
    let (t', made, next) = init-next t (omega arith) in
    let (t'', rest, last) = inits-next n t' (omega arith) in
    (t'', rw (made, inits) rest, omega arith)

-- With one place left a second instruction with operands does not fit.
add_instrs_full :
    (name name' : Text) (code code' type : ℕ) (types types' : List ℕ)
    (more : List (Text × ℕ × List ℕ)) (t : InstrTable)
    → t.next_instr ≡ 255
    → add_instrs ((name, code, types) ∷ (name', code', type ∷ types') ∷ more) t ≡ none
unfolding add_instrs
add_instrs_full name name' code code' type types types' more t last =
    rw (add_instr_lookup_room name code types t (omega arith), add_instrs)
      (rw
        (
          add_instr_lookup_full name' code' type types' (added name code types t)
              (omega (arith, next-added name code types t)),
          add_instrs,
        )
        refl)

init_full : (t : InstrTable) → t.next_instr ≡ 255 → init_instr_table t ≡ none
unfolding init_instr_table
init_full t last = add_instrs_full _ _ _ _ _ _ _ _ t last

inits_one : (t : InstrTable) → inits 1 t ≡ init_instr_table t
unfolding inits
inits_one t = elim (Option-cases (init_instr_table t)) [
  | inl e ↦ rw (e, inits) refl
  | inr (t', e) ↦ rw (e, inits) refl
]

inits-suc :
    (n : ℕ) (t t' : InstrTable) → inits n t ≡ some t' → inits (suc n) t ≡ init_instr_table t'
unfolding inits
inits-suc zero t t' h = inits_one t ∙ ap init_instr_table (let e : t ≡ t' = cc in e)
inits-suc (suc n) t t' h = elim (Option-cases (init_instr_table t)) [
  | inl e ↦ absurd (let bad : none ≡ some t' = rw (e, inits) at h in cc)
  | inr (u, e) ↦ rw (e, inits) (inits-suc n u t' (rw (e, inits) at h))
]

-- A new table has room for fifteen calls of `Init`; the sixteenth writes in front of the table.
pub inits_bound :
    (t : InstrTable)
    → t.next_instr ≡ 0
    → ((n : ℕ) → n ≤ 15 → (t' : InstrTable) × (inits n t ≡ some t')) × (inits 16 t ≡ none)
inits_bound t start = (
  λ n le. let (t', made, next) = inits-next n t (omega arith) in (t', made),
  let (t', made, next) = inits-next 15 t (omega arith) in
      inits-suc 15 t t' made ∙ init_full t' (omega arith),
)
