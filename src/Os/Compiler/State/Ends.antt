-- ===== src/Os/Compiler/State/Ends.antt =====
-- os/compiler/compiler.cpp: reading tokens goes on in the source and leaves the symbols.
use ferry_os.Prelude.{
  ℕ, zero, suc, ◌+◌, ◌≤◌, ◌<◌, ◌≡◌, List, [], ◌∷◌, arith, length, ltb, leb, Bool-cases,
  Option-cases, inl, inr,
}
use ferry_os.Os.Compiler.Text.{Text}
use ferry_os.Os.Compiler.Outcome.{
  Outcome, ok, CompileErr, Ends, ends, fails, undef, Ends-bind, Ends-if, Ends-map,
}
use ferry_os.Os.Compiler.InstrTable.{InstrTable}
use ferry_os.Os.Compiler.Lexer.{
  Token, is_token, Lexer, get_line, get_look_ahead_char, skip_to_next_line, drop_chars,
  is_in_string,
}
use ferry_os.Os.Compiler.Lexer.Progress.{left, Moves, get_next_token-Moves}
use ferry_os.Os.Compiler.State.{
  max_source_line_size, Asm, fail, next_token, expect, look_ahead, total_chars, skip_newlines_from,
  skip_newlines, pass,
}

-- The lexer is at line `l` or behind it, and `P` holds.
abbrev pub Good : (Asm → Type 0) → ℕ → Asm → Type 0
Good P l a = (l ≤ a.lexer.curr_source_line) × P a

pub fail-Ends :
    {A : Type 0} {P : A → Type 0} (e : CompileErr) (lines : List Text) (lx : Lexer)
    → Ends P (fail {A = A} e lines lx)
unfolding fail
fail-Ends e lines lx = elim (Option-cases (get_line lines lx.curr_source_line)) [
  | inl no_line ↦ rw (no_line, fail) undef
  | inr (line, at) ↦
      rw (at, fail) (Ends-if (ltb (length line) max_source_line_size) (λ h. fails e) (λ h. undef))
]

next_line :
    (n : ℕ) (lx : Lexer) → (skip_to_next_line n lx).1.curr_source_line ≡ lx.curr_source_line + 1
unfolding skip_to_next_line
next_line n lx = ground arith

left-le : (lines : List Text) (n i : ℕ) → left lines n i ≤ total_chars lines
unfolding left
left-le [] n i = omega arith
left-le (l ∷ lines) zero i = omega arith
left-le (l ∷ lines) (suc n) i = omega (arith, left-le lines n i)

-- `P` does not speak of the lexer.
module _ (P : Asm → Type 0) (keep : (a : Asm) (lx : Lexer) → P a → P (record a { lexer = lx }))
    (table : InstrTable) (lines : List Text) where
  next_token-Moves :
      (a : Asm)
      → P a
      → Ends (λ r. Moves lines a.lexer (r.0, r.1.lexer) × P r.1) (next_token table lines a)
  unfolding next_token
  next_token-Moves a p =
      Ends-bind (Moves lines a.lexer) (get_next_token-Moves table lines a.lexer)
        (λ (t, lx) h. ends _ (h, keep a lx p))

  pub next_token-Good :
      (l : ℕ) (a : Asm) → Good P l a → Ends (λ r. Good P l r.1) (next_token table lines a)
  next_token-Good l a (far, p) =
      Ends-map (next_token-Moves a p) (λ r ((moved, less), q). (omega arith, q))

  pub expect-Good :
      (l : ℕ) (t : Token) (e : CompileErr) (a : Asm)
      → Good P l a
      → Ends (Good P l) (expect table lines t e a)
  unfolding expect
  expect-Good l t e a h =
      Ends-bind (λ r. Good P l r.1) (next_token-Good l a h)
        (λ (u, b) k. Ends-if (is_token u t) (λ _. ends b k) (λ _. fail-Ends e lines b.lexer))

  pub look_ahead-Ends : (a : Asm) → Ends (λ c. Unit {0}) (look_ahead lines a)
  unfolding look_ahead get_look_ahead_char
  look_ahead-Ends a = elim (Option-cases (get_line lines a.lexer.curr_source_line)) [
    | inl e ↦ rw (e, get_look_ahead_char) undef
    | inr (line, e) ↦
        rw (e, get_look_ahead_char)
          (Ends-if (is_in_string a.lexer.curr_lex_state)
            (λ h.
              Ends-if (ltb (length line) a.lexer.index1) (λ over. undef)
                (λ within. in_line (drop_chars a.lexer.index1 line)))
            (λ h. ends _ tt))
  ]
    where
      in_line :
          (rest : Text)
          → Ends (λ c. Unit {0}) (elim rest as (λ _. Outcome ℕ) [ [] ↦ ok 0 | c ∷ s ↦ ok c ])
      in_line [] = ends 0 tt
      in_line (c ∷ s) = ends c tt

  skip_newlines_from-Good :
      (n l : ℕ) (a : Asm)
      → left lines a.lexer.curr_source_line a.lexer.index1 < n
      → Good P l a
      → Ends (Good P l) (skip_newlines_from n table lines a)
  unfolding skip_newlines_from
  skip_newlines_from-Good zero l a few h = absurd (omega arith)
  skip_newlines_from-Good (suc n) l a few (far, p) =
      Ends-bind (λ r. Moves lines a.lexer (r.0, r.1.lexer) × P r.1) (next_token-Moves a p)
        (λ (t, b) ((moved, less), q). elim (Bool-cases (is_token t Token.newline)) [
          | inl again ↦
              rw again (skip_newlines_from-Good n l b (omega (arith, less again)) (omega arith, q))
          | inr done ↦ rw done (ends b (omega arith, q))
        ])

  pub skip_newlines-Good :
      (l : ℕ) (a : Asm) → Good P l a → Ends (Good P l) (skip_newlines table lines a)
  unfolding skip_newlines
  skip_newlines-Good l a h =
      skip_newlines_from-Good (suc (total_chars lines)) l a
        (omega (arith, left-le lines a.lexer.curr_source_line a.lexer.index1)) h

  -- A pass ends if its step does, at a source line on which it starts.
  pub pass-Ends :
      (step : Token → Asm → Outcome Asm)
      → ((l : ℕ) (t : Token) (a : Asm) → Good P l a → Ends (Good P l) (step t a))
      → (n : ℕ) (a : Asm) → a.lexer.curr_source_line < length lines
      → length lines ≤ n + a.lexer.curr_source_line
      → P a
      → Ends P (pass step n table lines a)
  unfolding pass skip_to_next_line
  pass-Ends step good zero a lt le p = absurd (omega arith)
  pass-Ends step good (suc n) a lt le p =
      Ends-bind (λ r. Good P a.lexer.curr_source_line r.1)
        (next_token-Good a.lexer.curr_source_line a (omega arith, p))
        (λ (t, b) (far, q). elim (Bool-cases (is_token t Token.end_of_token_stream)) [
          | inl end ↦ rw end (ends b q)
          | inr on ↦ rw on (
              Ends-bind (Good P a.lexer.curr_source_line)
                (good a.lexer.curr_source_line t b (far, q))
                (λ c (far_c, s).
                  elim (Bool-cases (leb (length lines) (c.lexer.curr_source_line + 1))) [
                    | inl last ↦ rw last (ends _ (keep c _ s))
                    | inr more ↦ rw more (
                        pass-Ends step good n _ (ground (arith, next_line (length lines) c.lexer))
                          (omega (arith, next_line (length lines) c.lexer)) (keep c _ s))
                  ]))
        ])
