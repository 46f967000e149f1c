-- ===== src/Os/Compiler/Source.antt =====
-- os/compiler/compiler.cpp: `LoadSourceFile`. The file is the list of its characters, none of them
-- null, or none where it cannot be opened; the memory is taken as enough.
use ferry_os.Prelude.{
  ℕ, zero, suc, ◌+◌, ◌-◌, Option, none, some, List, [], ◌∷◌, ◌++◌, ◌==◌, if◌then◌else◌,
}
use ferry_os.Os.Compiler.Text.{Text, strip_comments, trim_whitespace}
use ferry_os.Os.Compiler.Outcome.{Outcome, failed, defined, CompileErr}

abbrev pub max_source_line_size : ℕ
max_source_line_size = 4096

-- `fgets` of at most `n` characters: the line with its newline, and the rest of the file.
unfoldable pub fgets : ℕ → Text → Text × Text
fgets zero file = ([], file)
fgets (suc n) [] = ([], [])
fgets (suc n) (c ∷ file) =
    let (line, rest) = fgets n file in if c == b'\n' then (c ∷ [], file) else (c ∷ line, rest)

unfoldable pub count_newlines : Text → ℕ
count_newlines [] = 0
count_newlines (c ∷ file) = if c == b'\n' then suc (count_newlines file) else count_newlines file

abbrev last_char : Text → ℕ
last_char [] = 0
last_char (c ∷ []) = c
last_char (c ∷ d ∷ s) = last_char (d ∷ s)

abbrev pub end_line : Text → Text
end_line line = if last_char line == b'\n' then line else line ++ b'\n' ∷ []

-- A line without its comment and the blanks in front, and with a newline at the end.
unfoldable pub clean_line : Text → Option Text
clean_line line = elim (strip_comments line) [
  | none ↦ none
  | some kept ↦ some (end_line (trim_whitespace kept))
]

-- At the end of the file `fgets` leaves the memory of the line as it was found.
abbrev line_or : Text → Text → Text
line_or found [] = found
line_or found (c ∷ line) = c ∷ line

-- The loop over the lines, from `index` on with `n` left; `found` is what new memory holds.
unfoldable pub read_source : (ℕ → Text) → ℕ → ℕ → Text → Option (List Text)
unfolding fgets clean_line
read_source found zero index file = some []
read_source found (suc n) index file =
    let (line, rest) = fgets (max_source_line_size - 1) file in
    elim (clean_line (line_or (found index) line)) [
      | none ↦ none
      | some kept ↦ elim (read_source found n (index + 1) rest) [
        | none ↦ none
        | some lines ↦ some (kept ∷ lines)
      ]
    ]

-- The lines; their number is added to `size`, which is not set back for a later source.
unfoldable pub load_source_file : (ℕ → Text) → ℕ → Option Text → Outcome (List Text)
unfolding read_source count_newlines
load_source_file found size none = failed CompileErr.file_not_found
load_source_file found size (some file) =
    defined (read_source found (size + count_newlines file + 1) 0 file)
