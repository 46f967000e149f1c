-- ===== src/Os/Compiler/Text.antt =====
-- os/compiler/compiler.cpp: characters and strings of the assembler.
-- A C string is the list of its characters before the null. Results are none where the source
-- reads or writes outside a string.
pub mod Laws
use Prim.Native.Char.{code}
use Prim.Native.String.{String}
use ferry_os.Prelude.{
  ℕ, zero, suc, ◌+◌, ◌-◌, ◌*◌, ◌^◌, Bool, true, false, not, ◌&&◌, ◌||◌, Option, none, some, List,
  [], ◌∷◌, ◌++◌, ltb, leb, ◌==◌, if◌then◌else◌, length, replicate,
}

abbrev pub Text : Type 0
Text = List ℕ

-- The characters of a literal.
abbrev pub codes : String → Text
codes String.[] = []
codes (String.◌∷◌ c s) = code c ∷ codes s

-- `strcmp(a, b) == 0`
unfoldable pub str_eq : Text → Text → Bool
str_eq [] [] = true
str_eq [] (d ∷ b) = false
str_eq (c ∷ a) [] = false
str_eq (c ∷ a) (d ∷ b) = c == d && str_eq a b

abbrev char_between : ℕ → ℕ → ℕ → Bool
char_between lo hi c = leb lo c && leb c hi

abbrev pub is_char_whitespace : ℕ → Bool
is_char_whitespace c = c == b' ' || c == b'\t'

abbrev pub is_char_numeric : ℕ → Bool
is_char_numeric c = char_between b'0' b'9' c

abbrev pub is_char_ident : ℕ → Bool
is_char_ident c =
    char_between b'0' b'9' c || char_between b'A' b'Z' c || char_between b'a' b'z' c || c == b'_'

abbrev pub is_char_delimiter : ℕ → Bool
is_char_delimiter c =
    c == b':'
    || c == b','
    || c == b'['
    || c == b']'
    || c == b'{'
    || c == b'}'
    || c == b'"'
    || is_char_whitespace c
    || c == b'\n'

abbrev upper : ℕ → ℕ
upper c = if char_between b'a' b'z' c then c - 32 else c

unfoldable pub strupr : Text → Text
strupr [] = []
strupr (c ∷ s) = upper c ∷ strupr s

abbrev pub all_of : (ℕ → Bool) → Text → Bool
all_of test [] = true
all_of test (c ∷ s) = test c && all_of test s

abbrev pub is_string_whitespace : Text → Bool
is_string_whitespace s = all_of is_char_whitespace s

unfoldable pub is_string_ident : Text → Bool
is_string_ident [] = false
is_string_ident (c ∷ s) = not (is_char_numeric c) && all_of is_char_ident (c ∷ s)

unfoldable pub is_string_integer : Text → Bool
is_string_integer [] = false
is_string_integer (c ∷ s) = (c == b'-' || is_char_numeric c) && all_of is_char_numeric s

abbrev digits : ℕ → Text → ℕ
digits n [] = n
digits n (c ∷ s) = digits (10 * n + (c - b'0')) s

-- `atoi` of a string for which `IsStringInteger` holds, as the bit pattern of the int; none where
-- the value is not an int, for which the library defines no result.
unfoldable pub atoi : Text → Option ℕ
atoi [] = some 0
atoi (c ∷ s) =
    if c == b'-'
    then (let n = digits 0 s in
        if leb n (2 ^ 31) then some (if n == 0 then 0 else 2 ^ 32 - n) else none)
    else (let n = digits 0 (c ∷ s) in if ltb n (2 ^ 31) then some n else none)

-- The loop of `StripComments`; the last character is not looked at.
unfoldable pub strip_from : Bool → Text → Text
strip_from in_string [] = []
strip_from in_string (c ∷ []) = c ∷ []
strip_from in_string (c ∷ d ∷ s) =
    let quoted = (if c == b'"' then not in_string else in_string) in
    let rest = c ∷ strip_from quoted (d ∷ s) in if c == b';' && not quoted then b'\n' ∷ [] else rest

-- The loop has no end on an empty string, whose length less 1 is the greatest number.
unfoldable pub strip_comments : Text → Option Text
unfolding strip_from
strip_comments [] = none
strip_comments (c ∷ s) = some (strip_from false (c ∷ s))

unfoldable pub count_blanks : Text → ℕ
count_blanks [] = 0
count_blanks (c ∷ s) = if is_char_whitespace c then suc (count_blanks s) else 0

unfoldable pub drop_blanks : Text → Text
drop_blanks [] = []
drop_blanks (c ∷ s) = if is_char_whitespace c then drop_blanks s else c ∷ s

-- The string up to its last character that is no blank.
unfoldable pub cut_blanks : Text → Text
cut_blanks [] = []
cut_blanks (c ∷ s) = if is_string_whitespace (c ∷ s) then [] else c ∷ cut_blanks s

-- The loop from the right end, which does not look at the first character: a string that has only
-- blanks behind it is left as it is.
unfoldable pub end_at_blanks : Text → Text
unfolding cut_blanks
end_at_blanks [] = []
end_at_blanks (c ∷ s) = if is_string_whitespace s then c ∷ s else c ∷ cut_blanks s

unfoldable pub trim_whitespace : Text → Text
unfolding count_blanks drop_blanks end_at_blanks
trim_whitespace s =
    if leb (length s) 1 then s else end_at_blanks (drop_blanks s ++ replicate (count_blanks s) b' ')
