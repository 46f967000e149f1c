-- ===== src/Os/Compiler/Lexer/Progress.antt =====
-- os/compiler/compiler.cpp: `GetNextToken` does not go back, and a newline takes a character.
use ferry_os.Prelude.{
  ℕ, zero, suc, ◌+◌, ◌-◌, ◌≤◌, ◌<◌, ◌≡◌, refl, ap, true, false, some, List, [], ◌∷◌, arith, length,
  ltb, leb, Bool-cases, Option-cases, inl, inr,
}
use ferry_os.Os.Compiler.Text.{
  Text, str_eq, is_string_ident, is_string_integer, count_blanks, drop_blanks, strupr,
}
use ferry_os.Os.Compiler.Outcome.{Ends-map, Ends-fits, Outcome, Ends, ends, undef}
use ferry_os.Os.Compiler.InstrTable.{InstrTable, get_instr_by_mnemonic}
use ferry_os.Os.Compiler.Lexer.{
  max_lexeme_size, unescape, Token, is_token, Lexer, LexState, no_string, in_string, end_string,
  get_line, drop_chars, take_chars, classify, identify, at_least_one, string_len, lexeme_len,
  string_at, lexeme_at, token_at, get_next_token, skip_to_next_line,
}
use ferry_os.Os.Compiler.State.{total_chars}

-- The characters from a place of a line on.
unfoldable pub left : List Text → ℕ → ℕ → ℕ
left [] n i = 0
left (l ∷ lines) zero i = length l - i + total_chars lines
left (l ∷ lines) (suc n) i = left lines n i

left-later :
    (lines : List Text) (n i j : ℕ) (line : Text)
    → get_line lines n ≡ some line
    → i < length line
    → i < j
    → left lines n j < left lines n i
unfolding left
left-later [] n i j line g lt later = cc
left-later (l ∷ lines) zero i j line g lt later =
    let e : l ≡ line = cc in omega (arith, ap length e)
left-later (l ∷ lines) (suc n) i j line g lt later = left-later lines n i j line g lt later

left-next_line : (lines : List Text) (n i : ℕ) → left lines (suc n) 0 ≤ left lines n i
unfolding left
left-next_line [] n i = omega arith
left-next_line (l ∷ []) zero i = omega arith
left-next_line (l ∷ m ∷ lines) zero i = omega arith
left-next_line (l ∷ lines) (suc n) i = left-next_line lines n i

-- From `lx` the lexer has moved on to another, with a token.
abbrev pub Moves : List Text → Lexer → Token × Lexer → Type 0
Moves lines lx r =
    (lx.curr_source_line ≤ r.1.curr_source_line)
    × (is_token r.0 Token.newline ≡ true
        → left lines r.1.curr_source_line r.1.index1 < left lines lx.curr_source_line lx.index1)

identify-line :
    (table : InstrTable) (lx : Lexer)
    → ((identify table lx).1.curr_source_line ≡ lx.curr_source_line)
      × ((identify table lx).1.index1 ≡ lx.index1)
unfolding identify
identify-line table lx = ground arith

empty_lexeme : (table : InstrTable) → is_token (classify table []) Token.newline ≡ false
unfolding classify str_eq is_string_ident is_string_integer
empty_lexeme table = elim (Option-cases (get_instr_by_mnemonic [] table)) [
  | inl e ↦ rw (e, classify) refl
  | inr (i, e) ↦ rw (e, classify) refl
]

identify_empty :
    (table : InstrTable) (lx : Lexer)
    → lx.curr_lexeme ≡ []
    → is_token (identify table lx).0 Token.newline ≡ false
unfolding identify
identify_empty table lx h = ground (arith, empty_lexeme table)

-- A lexeme that is read at `start`, where the line goes on, and taken up to behind it.
identify-Moves :
    (table : InstrTable) (lines : List Text) (line : Text) (lx new : Lexer)
    → get_line lines lx.curr_source_line ≡ some line
    → new.curr_source_line ≡ lx.curr_source_line
    → lx.index1 < length line
    → lx.index1 < new.index1
    → Moves lines lx (identify table new)
identify-Moves table lines line lx new g same lt later =
    let (same', index') = identify-line table new in
    (
      omega arith,
      λ h.
          rw (same', index', same)
            (left-later lines lx.curr_source_line lx.index1 new.index1 line g lt later),
    )

drop_chars_pos :
    (i : ℕ) (line : Text) (c : ℕ) (s : Text) → drop_chars i line ≡ c ∷ s → i < length line
drop_chars_pos zero [] c s h = cc
drop_chars_pos zero (d ∷ line) c s h = omega arith
drop_chars_pos (suc i) [] c s h = cc
drop_chars_pos (suc i) (d ∷ line) c s h = omega (arith, drop_chars_pos i line c s h)

at_least_one_pos : (n : ℕ) → 0 < at_least_one n
at_least_one_pos zero = omega arith
at_least_one_pos (suc n) = omega arith

-- `lx` with the place at which the rest of the line begins.
string_at-Moves :
    (table : InstrTable) (lines : List Text) (line rest : Text) (lx : Lexer)
    → get_line lines lx.curr_source_line ≡ some line
    → drop_chars lx.index0 line ≡ rest
    → lx.index1 ≡ lx.index0
    → Ends (Moves lines lx) (string_at table rest lx)
unfolding string_at string_len
string_at-Moves table lines line [] lx g at_rest here = ends _ (omega arith, λ h. absurd (cc))
string_at-Moves table lines line (c ∷ s) lx g at_rest here =
    elim (Option-cases (string_len (c ∷ s))) [
      | inl e ↦ rw (e, string_at) (ends _ (omega arith, λ h. absurd (cc)))
      | inr (n, e) ↦
          let new : Lexer = record lx {
            index1 = lx.index0 + at_least_one n;
            curr_lexeme = unescape (take_chars (at_least_one n) (c ∷ s));
          } in
          rw (e, string_at)
            (Ends-fits (ltb (length new.curr_lexeme) max_lexeme_size) (identify table new) (
              identify-Moves table lines line lx new g refl
                (omega (arith, drop_chars_pos lx.index0 line c s at_rest))
                (omega (arith, at_least_one_pos n))))
    ]

lexeme_at-Moves :
    (table : InstrTable) (lines : List Text) (line rest : Text) (lx : Lexer)
    → get_line lines lx.curr_source_line ≡ some line
    → drop_chars lx.index0 line ≡ rest
    → lx.index1 ≡ lx.index0
    → Ends (Moves lines lx) (lexeme_at table rest lx)
unfolding lexeme_at drop_blanks strupr
lexeme_at-Moves table lines line [] lx g at_rest here =
    let new : Lexer = record lx {
      index0 = lx.index0 + count_blanks [];
      index1 = lx.index0 + count_blanks [] + 1;
      curr_lexeme = [];
    } in
    ends _ (
      omega (arith, identify-line table new),
      λ h. let other = identify_empty table new refl in absurd (cc),
    )
lexeme_at-Moves table lines line (c ∷ s) lx g at_rest here =
    let size = at_least_one (lexeme_len (drop_blanks (c ∷ s))) in
    let start = lx.index0 + count_blanks (c ∷ s) in
    let new : Lexer = record lx {
      index0 = start;
      index1 = start + size;
      curr_lexeme = strupr (take_chars size (drop_blanks (c ∷ s)));
    } in
    Ends-fits (ltb (length new.curr_lexeme) max_lexeme_size) (identify table new) (
      identify-Moves table lines line lx new g refl
        (omega (arith, drop_chars_pos lx.index0 line c s at_rest))
        (omega (arith, at_least_one_pos (lexeme_len (drop_blanks (c ∷ s))))))

token_at-Moves :
    (table : InstrTable) (lines : List Text) (lx : Lexer)
    → lx.index1 ≡ lx.index0
    → Ends (Moves lines lx) (token_at table lines lx)
unfolding token_at
token_at-Moves table lines lx here = elim (Option-cases (get_line lines lx.curr_source_line)) [
  | inl e ↦ rw (e, token_at) undef
  | inr (line, e) ↦
      let rest = drop_chars lx.index0 line in
      let word = lexeme_at-Moves table lines line rest lx e refl here in
      let after =
        lexeme_at-Moves table lines line rest (record lx { curr_lex_state = LexState.no_string }) e
          refl here in
      let inside = string_at-Moves table lines line rest lx e refl here in
      rw (e, token_at) (by_state lx.curr_lex_state word after inside)
]
  where
    by_state :
        (state : LexState) {P : Token × Lexer → Type 0}
        {word after inside : Outcome (Token × Lexer)}
        → Ends P word
        → Ends P after
        → Ends P inside
        → Ends P (elim state [ in_string ↦ inside | end_string ↦ after | no_string ↦ word ])
    by_state in_string w a i = i
    by_state end_string w a i = a
    by_state no_string w a i = w

-- A token of the next line.
next_line-Moves :
    (lines : List Text) (lx : Lexer) (r : Token × Lexer)
    → Moves lines
        (record lx {
          curr_source_line = lx.curr_source_line + 1;
          index0 = 0;
          index1 = 0;
          curr_lex_state = LexState.no_string;
        })
        r
    → Moves lines lx r
next_line-Moves lines lx r (far, less) = (
  omega arith,
  λ h.
      let one : lx.curr_source_line + 1 ≡ suc lx.curr_source_line = omega arith in
      let before = ap (λ n. left lines n 0) one in
      omega (arith, less h, left-next_line lines lx.curr_source_line lx.index1, before),
)

pub get_next_token-Moves :
    (table : InstrTable) (lines : List Text) (lx : Lexer)
    → Ends (Moves lines lx) (get_next_token table lines lx)
unfolding get_next_token skip_to_next_line
get_next_token-Moves table lines lx = elim (Option-cases (get_line lines lx.curr_source_line)) [
  | inl e ↦ rw (e, get_next_token) undef
  | inr (line, e) ↦ elim (Bool-cases (leb (length line) lx.index1)) [
    | inl over ↦ elim (Bool-cases (leb (length lines) (lx.curr_source_line + 1))) [
      | inl last ↦ rw (e, get_next_token, over, last) (ends _ (omega arith, λ h. absurd (cc)))
      | inr more ↦
          let next : Lexer = record lx {
            curr_source_line = lx.curr_source_line + 1;
            index0 = 0;
            index1 = 0;
            curr_lex_state = LexState.no_string;
          } in
          rw (e, get_next_token, over, more)
            (Ends-map (token_at-Moves table lines next refl) (λ r h. next_line-Moves lines lx r h))
    ]
    | inr within ↦
        rw (e, get_next_token, within)
          (token_at-Moves table lines (record lx { index0 = lx.index1 }) refl)
  ]
]
