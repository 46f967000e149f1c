-- ===== src/Os/Compiler/SecondPass/Ends.antt =====
-- os/compiler/compiler.cpp: an operand of the second pass is read, of a type that the table admits.
use ferry_os.Prelude.{
  subst, ℕ, ◌≡◌, ◌⊎◌, Bool, true, false, not, some, List, [], ◌∷◌, ◌==◌, All, Bool-cases,
  Option-cases, inl, inr,
}
use ferry_os.Machine.{Op}
use ferry_os.Os.Compiler.Text.{Text, atoi}
use ferry_os.Os.Compiler.Outcome.{
  CompileErr, Ends, ends, undef, Ends-bind, Ends-if, Ends-map, Ends-defined,
}
use ferry_os.Os.Compiler.Tables.{
  SymbolNode, find, visible, get_symbol_by_ident, get_label_by_ident, get_func_by_name,
}
use ferry_os.Os.Compiler.InstrTable.{
  InstrTable, flag_mem_ref, flag_line_label, flag_func_name, flag_core_api_call,
}
use ferry_os.Os.Compiler.Lexer.{Token, Lexer}
use ferry_os.Os.Compiler.State.{Asm}
use ferry_os.Os.Compiler.State.Ends.{Good, fail-Ends, next_token-Good, expect-Good, look_ahead-Ends}
use ferry_os.Os.Compiler.FirstPass.Ends.{IsSized}
use ferry_os.Os.Compiler.SecondPass.Types.{
  IsAdmitted, a_string, a_place, a_label, a_function, a_call, left_unset, IsTyped,
}
use ferry_os.Os.Compiler.SecondPass.{
  has, array_index, array_operand, plain_operand, mem_operand, label_operand, func_operand,
  api_operand, ident_operand,
}

-- All symbols have more than one byte, and the instructions are as the table has them.
abbrev pub Fixed : InstrTable → Asm → Type 0
Fixed table a = All IsSized a.symbol_table × All (IsTyped table) a.instr_stream

abbrev pub keep :
    (table : InstrTable) (a : Asm) (lx : Lexer)
    → Fixed table a
    → Fixed table (record a { lexer = lx })
keep table a lx h = h

find-All {ℓ κ} :
    {A : Type ℓ} (P : A → Type κ) (test : A → Bool) (xs : List A) (a : A)
    → All P xs
    → find test xs ≡ some a
    → P a
unfolding find
find-All P test [] a h e = absurd (cc)
find-All P test (x ∷ xs) a (h, hs) e = elim (Bool-cases (test x)) [
  | inl hit ↦ let same : some x ≡ some a = rw hit at e in subst P (cc) h
  | inr miss ↦ find-All P test xs a hs (rw miss at e)
]

symbol-IsSized :
    (ident : Text) (func : ℕ) (symbols : List SymbolNode) (s : SymbolNode)
    → All IsSized symbols
    → get_symbol_by_ident ident func symbols ≡ some s
    → IsSized s
unfolding get_symbol_by_ident
symbol-IsSized ident func symbols s h e = find-All IsSized (visible ident func) symbols s h e

module _ (table : InstrTable) (lines : List Text) (l types : ℕ) where
  abbrev pub Held : Asm → Type 0
  Held = Good (Fixed table) l

  -- An operand that the mask admits, and what holds on.
  abbrev pub Read : Op × Asm → Type 0
  Read r = IsAdmitted types r.0.kind × Held r.1

  -- An operand that is read, or left unset for a reason.
  abbrev Stage : Type 0 → Op × Asm → Type 0
  Stage P r = (IsAdmitted types r.0.kind ⊎ P) × Held r.1

  array_index-Read :
      (t : Token) (base : ℕ) (a : Asm)
      → has types flag_mem_ref ≡ true
      → Held a
      → Ends Read (array_index table lines t base a)
  unfolding array_index
  array_index-Read Token.int base a mem h =
      Ends-bind (λ n. atoi a.lexer.curr_lexeme ≡ some n) (Ends-defined _)
        (λ n _. ends _ (a_place mem, h))
  array_index-Read Token.ident base a mem (far, (sized, done)) =
      elim (Option-cases
        (get_symbol_by_ident a.lexer.curr_lexeme a.curr_func_index a.symbol_table)) [
          | inl e ↦ rw (e, array_index) (fail-Ends CompileErr.undef_ident lines a.lexer)
          | inr (s, e) ↦
              rw
                (
                  e,
                  array_index,
                  symbol-IsSized a.lexer.curr_lexeme a.curr_func_index a.symbol_table s sized e,
                )
                (fail-Ends CompileErr.invalid_array_size lines a.lexer)
        ]
  array_index-Read _ base a mem h = fail-Ends CompileErr.invalid_array_size lines a.lexer

  array_operand-Read :
      (s : SymbolNode) (a : Asm)
      → has types flag_mem_ref ≡ true
      → Held a
      → Ends Read (array_operand table lines s a)
  unfolding array_operand
  array_operand-Read s a mem h =
      Ends-if (not s.is_arr) (λ _. fail-Ends CompileErr.arr_not_indexed lines a.lexer)
        (λ _.
          Ends-bind (Held)
            (expect-Good (Fixed table) (keep table) table lines l Token.open_bracket
              CompileErr.char_expected a h)
            (λ b hb.
              Ends-bind (λ r. Held r.1)
                (next_token-Good (Fixed table) (keep table) table lines l b hb)
                (λ (t, c) hc.
                  Ends-bind Read (array_index-Read t s.stack_index c mem hc) (λ (op, d) (plain, hd).
                    Ends-bind (Held)
                      (expect-Good (Fixed table) (keep table) table lines l Token.close_bracket
                        CompileErr.char_expected d hd)
                      (λ e he. ends _ (plain, he))))))

  plain_operand-Read :
      (s : SymbolNode) (a : Asm)
      → has types flag_mem_ref ≡ true
      → Held a
      → Ends Read (plain_operand table lines s a)
  unfolding plain_operand
  plain_operand-Read s a mem h =
      Ends-if s.is_arr (λ _. undef)
        (λ _.
          Ends-if (s.symbol_type == 2) (λ str. ends _ (a_string mem, h))
            (λ _. ends _ (a_place mem, h)))

  mem_operand-Read :
      (a : Asm) → has types flag_mem_ref ≡ true → Held a → Ends Read (mem_operand table lines a)
  unfolding mem_operand
  mem_operand-Read a mem h =
      elim (Option-cases
        (get_symbol_by_ident a.lexer.curr_lexeme a.curr_func_index a.symbol_table)) [
          | inl e ↦ rw (e, mem_operand) (fail-Ends CompileErr.undef_ident lines a.lexer)
          | inr (s, e) ↦
              rw (e, mem_operand)
                (Ends-bind (λ c. Unit {0})
                  (look_ahead-Ends (Fixed table) (keep table) table lines a)
                  (λ c _.
                    Ends-if (c == b'[') (λ _. array_operand-Read s a mem h)
                      (λ _. plain_operand-Read s a mem h)))
        ]

  label_operand-Read :
      (op : Op) (a : Asm)
      → has types flag_line_label ≡ true
      → Held a
      → Ends Read (label_operand table lines op a)
  unfolding label_operand
  label_operand-Read op a given h =
      elim (Option-cases (get_label_by_ident a.lexer.curr_lexeme a.curr_func_index a.label_table)) [
        | inl e ↦ rw (e, label_operand) (fail-Ends CompileErr.invalid_label lines a.lexer)
        | inr (found, e) ↦ rw (e, label_operand) (ends _ (a_label given, h))
      ]

  func_operand-Read :
      (op : Op) (a : Asm)
      → has types flag_func_name ≡ true
      → Held a
      → Ends Read (func_operand table lines op a)
  unfolding func_operand
  func_operand-Read op a given h =
      elim (Option-cases (get_func_by_name a.lexer.curr_lexeme a.func_table)) [
        | inl e ↦ rw (e, func_operand) (fail-Ends CompileErr.undef_func lines a.lexer)
        | inr (found, e) ↦ rw (e, func_operand) (ends _ (a_function given, h))
      ]

  api_operand-Read :
      (op : Op) (a : Asm)
      → has types flag_core_api_call ≡ true
      → Held a
      → Ends Read (api_operand table lines op a)
  unfolding api_operand
  api_operand-Read op a given h = ends _ (a_call given, h)

  pub ident_operand-Read : (a : Asm) → Held a → Ends Read (ident_operand table lines types a)
  unfolding ident_operand
  ident_operand-Read a h =
      Ends-bind (Stage (has types flag_mem_ref ≡ false))
        (Ends-if (has types flag_mem_ref) (λ mem. Ends-map (mem_operand-Read a mem h) read)
          (λ off. ends _ (inr off, h)))
        (λ (op, b) (p, hb).
          Ends-bind (Stage ((has types flag_mem_ref ≡ false) × (has types flag_line_label ≡ false)))
            (Ends-if (has types flag_line_label)
              (λ given. Ends-map (label_operand-Read op b given hb) read)
              (λ off. ends _ (still p off, hb)))
            (λ (op', c) (p', hc).
              Ends-bind
                (Stage (
                  ((has types flag_mem_ref ≡ false) × (has types flag_line_label ≡ false))
                  × (has types flag_func_name ≡ false)))
                (Ends-if (has types flag_func_name)
                  (λ given. Ends-map (func_operand-Read op' c given hc) read)
                  (λ off. ends _ (still p' off, hc)))
                (λ (op'', d) (p'', hd).
                  Ends-if (has types flag_core_api_call) (λ given. api_operand-Read op'' d given hd)
                    (λ off. ends _ (settle (still p'' off), hd)))))
    where
      read : {P : Type 0} (r : Op × Asm) → Read r → Stage P r
      read r (p, h) = (inl p, h)

      still : {A P Q : Type 0} → A ⊎ P → Q → A ⊎ (P × Q)
      still (inl p) off = inl p
      still (inr q) off = inr (q, off)

      settle :
          {k : ℕ}
          → IsAdmitted types k
            ⊎ ((((has types flag_mem_ref ≡ false) × (has types flag_line_label ≡ false))
                  × (has types flag_func_name ≡ false))
                × (has types flag_core_api_call ≡ false))
          → IsAdmitted types k
      settle (inl p) = p
      settle {k} (inr (((no_mem, no_label), no_func), no_api)) =
          left_unset k no_mem no_label no_func no_api
