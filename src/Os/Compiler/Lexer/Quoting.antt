-- ===== src/Os/Compiler/Lexer/Quoting.antt =====
-- os/compiler/compiler.cpp: the lexer reads a string as it was meant, with a backslash in front of
-- quotes and backslashes.
use ferry_os.Prelude.{
  ℕ, zero, suc, ◌+◌, ◌<◌, ◌≡◌, refl, ap, ◌∙◌, false, ◌||◌, Option, none, some, [], ◌∷◌, ◌++◌, arith,
  lt→ltb, ◌==◌, if◌then◌else◌, length, Bool-cases, Option-cases, inl, inr,
}
use ferry_os.Os.Compiler.Text.{Text}
use ferry_os.Os.Compiler.Outcome.{ok}
use ferry_os.Os.Compiler.InstrTable.{InstrTable}
use ferry_os.Os.Compiler.Lexer.{
  Token, Lexer, in_string, string_len, unescape, at_least_one, string_at, identify, is_quote,
}
use ferry_os.Os.Compiler.Build.Code.{take_chars-append}

-- A text as it is written in a source, between quotes.
unfoldable pub escape : Text → Text
escape [] = []
escape (c ∷ s) = if c == b'\\' || c == b'"' then b'\\' ∷ c ∷ escape s else c ∷ escape s

abbrev more : ℕ → Option ℕ → Option ℕ
more n none = none
more n (some k) = some (k + n)

string_len-backslash : (c : ℕ) (s : Text) → string_len (b'\\' ∷ c ∷ s) ≡ more 2 (string_len s)
unfolding string_len
string_len-backslash c s = elim (Option-cases (string_len s)) [
  | inl e ↦ rw (e, string_len) refl
  | inr (n, e) ↦ rw (e, string_len) refl
]

string_len-plain :
    (c : ℕ) (s : Text)
    → (c == b'\\' || c == b'"') ≡ false
    → string_len (c ∷ s) ≡ more 1 (string_len s)
unfolding string_len
string_len-plain c [] h = ground arith
string_len-plain c (d ∷ s) h =
    let no_backslash : (c == b'\\') ≡ false = ground arith in
    let no_quote : (c == b'"') ≡ false = ground arith in
    rw (no_backslash, string_len) (rw no_quote refl)

unescape-plain :
    (c : ℕ) (s : Text) → (c == b'\\' || c == b'"') ≡ false → unescape (c ∷ s) ≡ c ∷ unescape s
unfolding unescape
unescape-plain c [] h = refl
unescape-plain c (d ∷ s) h = ground arith

unescape-backslash : (c : ℕ) (s : Text) → unescape (b'\\' ∷ c ∷ s) ≡ c ∷ unescape s
unfolding unescape
unescape-backslash c s = refl

string_len-escape :
    (s rest : Text) → string_len (escape s ++ b'"' ∷ rest) ≡ some (length (escape s))
unfolding escape
string_len-escape [] [] = unfold string_len in refl
string_len-escape [] (d ∷ rest) = unfold string_len in refl
string_len-escape (c ∷ s) rest = elim (Bool-cases (c == b'\\' || c == b'"')) [
  | inl special ↦
      rw special (string_len-backslash c _ ∙ rw (string_len-escape s rest) (ap some (omega arith)))
  | inr plain ↦
      rw plain (string_len-plain c _ plain ∙ rw (string_len-escape s rest) (ap some (omega arith)))
]

unescape-escape : (s : Text) → unescape (escape s) ≡ s
unfolding escape
unescape-escape [] = unfold unescape in refl
unescape-escape (c ∷ s) = elim (Bool-cases (c == b'\\' || c == b'"')) [
  | inl special ↦ rw special (unescape-backslash c _ ∙ ap (λ l. c ∷ l) (unescape-escape s))
  | inr plain ↦ rw plain (unescape-plain c _ plain ∙ ap (λ l. c ∷ l) (unescape-escape s))
]

length-escape_pos : (s : Text) → 0 < length s → 0 < length (escape s)
unfolding escape
length-escape_pos [] h = h
length-escape_pos (c ∷ s) h = elim (Bool-cases (c == b'\\' || c == b'"')) [
  | inl special ↦ rw special (omega arith)
  | inr plain ↦ rw plain (omega arith)
]

at_least_one-eq : (n : ℕ) → 0 < n → at_least_one n ≡ n
at_least_one-eq zero h = absurd (omega arith)
at_least_one-eq (suc n) h = refl

identify_string :
    (table : InstrTable) (lx : Lexer)
    → lx.curr_lex_state ≡ in_string
    → is_quote lx.curr_lexeme ≡ false
    → identify table lx ≡ (Token.string, record lx { curr_token = Token.string })
unfolding identify
identify_string table lx inside no_quote = ground arith

-- A text of 1 to 255 characters, other than a quote alone, that stands escaped in front of a quote is
-- read as one token, whose lexeme is the text, and the lexer is then at the quote.
pub string_at-escape :
    (table : InstrTable) (s rest : Text) (lx : Lexer)
    → 0 < length s
    → length s < 256
    → is_quote s ≡ false
    → lx.curr_lex_state ≡ in_string
    → string_at table (escape s ++ b'"' ∷ rest) lx
      ≡ ok (
        Token.string,
        record lx {
          index1 = lx.index0 + length (escape s);
          curr_lexeme = s;
          curr_token = Token.string;
        },
      )
unfolding string_at
string_at-escape table s rest lx some_char short no_quote inside =
    let pos = at_least_one-eq (length (escape s)) (length-escape_pos s some_char) in
    let taken = take_chars-append (length (escape s)) (escape s) (b'"' ∷ rest) refl in
    let new : Lexer = record lx { index1 = lx.index0 + length (escape s); curr_lexeme = s } in
    rw (string_len-escape s rest, string_at)
      (rw (pos, taken, unescape-escape s, lt→ltb (length s) 256 short)
        (ap ok (identify_string table new inside no_quote)))
