-- ===== src/Os/Compiler/Lexer.antt =====
-- os/compiler/compiler.cpp: the lexer. The source is a list of lines. A result is undefined where the
-- code reads a line that is not there or writes behind the end of the lexeme.
pub mod Progress
pub mod Quoting
use Prim.Native.String.{String}
use ferry_os.Prelude.{
  ℕ, zero, suc, ◌+◌, ◌-◌, Bool, true, false, not, ◌&&◌, ◌||◌, Option, none, some, List, [], ◌∷◌,
  ltb, leb, ◌==◌, if◌then◌else◌, length,
}
use ferry_os.Os.Compiler.Text.{
  Text, codes, str_eq, strupr, is_char_whitespace, is_char_delimiter, is_string_ident,
  is_string_integer, drop_blanks, count_blanks,
}
use ferry_os.Os.Compiler.Outcome.{Outcome, ok, undefined, ◌>>=◌}
use ferry_os.Os.Compiler.InstrTable.{InstrTable, get_instr_by_mnemonic}

pub data Token : Type 0 where
  int int_def string string_def ptr quote ident colon : Token
  open_bracket close_bracket comma open_brace close_brace newline : Token
  instr set_stack_size func invalid end_of_token_stream r0 r1 r2 r3 : Token

-- The numbers of fasmconfig.h.
abbrev token_code : Token → ℕ
token_code int = 0
token_code int_def = 1
token_code string = 2
token_code string_def = 3
token_code ptr = 4
token_code quote = 5
token_code ident = 6
token_code colon = 7
token_code open_bracket = 8
token_code close_bracket = 9
token_code comma = 10
token_code open_brace = 11
token_code close_brace = 12
token_code newline = 13
token_code instr = 14
token_code set_stack_size = 15
token_code func = 17
token_code invalid = 20
token_code end_of_token_stream = 21
token_code r0 = 22
token_code r1 = 23
token_code r2 = 24
token_code r3 = 25

abbrev pub is_token : Token → Token → Bool
is_token t u = token_code t == token_code u

pub data LexState : Type 0 where
  no_string in_string end_string : LexState

abbrev pub is_in_string : LexState → Bool
is_in_string in_string = true
is_in_string _ = false

pub record Lexer : Type 0 where
  pub curr_source_line : ℕ
  pub index0 : ℕ
  pub index1 : ℕ
  pub curr_token : Token
  pub curr_lexeme : Text
  pub curr_lex_state : LexState

abbrev pub max_lexeme_size : ℕ
max_lexeme_size = 256

abbrev pub get_line : List Text → ℕ → Option Text
get_line [] i = none
get_line (l ∷ lines) zero = some l
get_line (l ∷ lines) (suc i) = get_line lines i

abbrev pub drop_chars {ℓ} : {A : Type ℓ} → ℕ → List A → List A
drop_chars zero s = s
drop_chars (suc n) [] = []
drop_chars (suc n) (c ∷ s) = drop_chars n s

abbrev pub take_chars : ℕ → Text → Text
take_chars zero s = []
take_chars (suc n) [] = []
take_chars (suc n) (c ∷ s) = c ∷ take_chars n s

-- The lexeme of the lexer before is left, as in the source.
unfoldable pub reset_lexer : Lexer → Lexer
reset_lexer lx = record lx {
  curr_source_line = 0;
  index0 = 0;
  index1 = 0;
  curr_token = Token.invalid;
  curr_lex_state = LexState.no_string;
}

-- Whether there is a next line, and the lexer.
unfoldable pub skip_to_next_line : ℕ → Lexer → Bool × Lexer
skip_to_next_line source_size lx =
    let line = lx.curr_source_line + 1 in
    if leb source_size line then (false, record lx { curr_source_line = line }) else (
      true,
      record lx {
        curr_source_line = line;
        index0 = 0;
        index1 = 0;
        curr_lex_state = LexState.no_string;
      },
    )

-- How far a lexeme outside a string goes: to a delimiter or the end of the line.
unfoldable pub lexeme_len : Text → ℕ
lexeme_len [] = 0
lexeme_len (c ∷ s) = let rest = suc (lexeme_len s) in if is_char_delimiter c then 0 else rest

-- How far a string goes: to a quote, two characters at a backslash; none where the line ends first.
unfoldable pub string_len : Text → Option ℕ
string_len [] = none
string_len (c ∷ []) = if c == b'\\' then none else if c == b'"' then some 0 else none
string_len (c ∷ d ∷ s) = elim (c == b'\\') [
  | true ↦ elim (string_len s) [ none ↦ none | some n ↦ some (n + 2) ]
  | false ↦ elim (c == b'"') [
    | true ↦ some 0
    | false ↦ elim (string_len (d ∷ s)) [ none ↦ none | some n ↦ some (n + 1) ]
  ]
]

-- The copy of a string without the backslashes.
unfoldable pub unescape : Text → Text
unescape [] = []
unescape (c ∷ []) = c ∷ []
unescape (c ∷ d ∷ s) = elim (c == b'\\') [ true ↦ d ∷ unescape s | false ↦ c ∷ unescape (d ∷ s) ]

-- The token of a single character.
unfoldable pub char_token : ℕ → Token
char_token c =
    if c == b'"'
    then Token.quote
    else if c == b','
    then Token.comma
    else if c == b':'
    then Token.colon
    else if c == b'['
    then Token.open_bracket
    else if c == b']'
    then Token.close_bracket
    else if c == b'{'
    then Token.open_brace
    else if c == b'}'
    then Token.close_brace
    else if c == b'\n'
    then Token.newline
    else Token.invalid

abbrev single_token : Text → Token
single_token (c ∷ []) = char_token c
single_token _ = Token.invalid

abbrev after_quote : LexState → LexState
after_quote no_string = in_string
after_quote in_string = end_string
after_quote end_string = end_string

abbrev is_quote : Text → Bool
is_quote (c ∷ []) = c == b'"'
is_quote _ = false

abbrev keyword : Text → String → Token → Token → Token
keyword s name t u = if str_eq s (codes name) then t else u

-- The identification of a lexeme that is no string: the last test that it passes counts.
unfoldable pub classify : InstrTable → Text → Token
unfolding char_token
classify table s = elim (get_instr_by_mnemonic s table) [
  | some i ↦ Token.instr
  | none ↦ keyword s "FUNC" Token.func (
      keyword s "PTR" Token.ptr (
        keyword s "STR" Token.string_def (
          keyword s "INT" Token.int_def (
            keyword s "SETSTACKSIZE" Token.set_stack_size (
              keyword s "R3" Token.r3 (
                keyword s "R2" Token.r2 (
                  keyword s "R1" Token.r1 (
                    keyword s "R0" Token.r0 (
                      if is_string_ident s
                      then Token.ident
                      else if is_string_integer s
                      then Token.int
                      else single_token s)))))))))
]

-- The token of the lexeme that was copied, and the state behind it.
unfoldable pub identify : InstrTable → Lexer → Token × Lexer
unfolding classify
identify table lx =
    if is_in_string lx.curr_lex_state && not (is_quote lx.curr_lexeme)
    then (Token.string, record lx { curr_token = Token.string })
    else (let token = classify table lx.curr_lexeme in
        let state =
          (if is_quote lx.curr_lexeme then after_quote lx.curr_lex_state else lx.curr_lex_state) in
        (token, record lx { curr_token = token; curr_lex_state = state }))

-- A lexeme of no character takes the next one.
abbrev at_least_one : ℕ → ℕ
at_least_one zero = 1
at_least_one (suc n) = suc n

-- `string_at` reads on in a string, `lexeme_at` elsewhere; both get the rest of the line.
unfoldable pub string_at : InstrTable → Text → Lexer → Outcome (Token × Lexer)
string_at table rest lx = elim (string_len rest) [
  | none ↦
      ok (Token.invalid, record lx { index1 = lx.index0 + length rest; curr_token = Token.invalid })
  | some n ↦
      let size = at_least_one n in
      let lexeme = unescape (take_chars size rest) in
      if ltb (length lexeme) max_lexeme_size
      then ok (identify table (record lx { index1 = lx.index0 + size; curr_lexeme = lexeme }))
      else undefined
]

unfoldable pub lexeme_at : InstrTable → Text → Lexer → Outcome (Token × Lexer)
unfolding lexeme_len identify
lexeme_at table rest lx =
    let start = lx.index0 + count_blanks rest in
    let here = drop_blanks rest in
    let size = at_least_one (lexeme_len here) in
    let lexeme = strupr (take_chars size here) in
    if ltb (length lexeme) max_lexeme_size
    then ok
        (identify table (record lx { index0 = start; index1 = start + size; curr_lexeme = lexeme }))
    else undefined

-- The part of `GetNextToken` on a line that has more characters.
unfoldable pub token_at : InstrTable → List Text → Lexer → Outcome (Token × Lexer)
unfolding string_at lexeme_at
token_at table lines lx = elim (get_line lines lx.curr_source_line) [
  | none ↦ undefined
  | some line ↦
      let rest = drop_chars lx.index0 line in
      elim lx.curr_lex_state [
        | in_string ↦ string_at table rest lx
        | end_string ↦ lexeme_at table rest (record lx { curr_lex_state = LexState.no_string })
        | no_string ↦ lexeme_at table rest lx
      ]
]

-- At the end of the source the lexer keeps the token that it had.
unfoldable pub get_next_token : InstrTable → List Text → Lexer → Outcome (Token × Lexer)
unfolding token_at skip_to_next_line
get_next_token table lines lx = elim (get_line lines lx.curr_source_line) [
  | none ↦ undefined
  | some line ↦
      let here = record lx { index0 = lx.index1 } in
      if leb (length line) lx.index1
      then (let (more, next) = skip_to_next_line (length lines) here in
          if more then token_at table lines next else ok (Token.end_of_token_stream, next))
      else token_at table lines here
]

-- The loop of `GetLookAheadChar` over the rest of the lines: 0 at the end of the source.
unfoldable pub first_char : List Text → ℕ
first_char [] = 0
first_char (line ∷ lines) = elim (drop_blanks line) [ [] ↦ first_char lines | c ∷ s ↦ c ]

-- Inside a string it is the next character, or the null that ends the line.
unfoldable pub get_look_ahead_char : List Text → Lexer → Outcome ℕ
unfolding first_char
get_look_ahead_char lines lx = elim (get_line lines lx.curr_source_line) [
  | none ↦ undefined
  | some line ↦
      if is_in_string lx.curr_lex_state
      then (if ltb (length line) lx.index1
          then undefined
          else elim (drop_chars lx.index1 line) [ [] ↦ ok 0 | c ∷ s ↦ ok c ])
      else ok (first_char (drop_chars lx.index1 line ∷ drop_chars (lx.curr_source_line + 1) lines))
]
