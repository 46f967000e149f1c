-- ===== src/Os/Compiler/Text/Laws.antt =====
-- os/compiler/compiler.cpp: what `StripComments` leaves of a line.
use ferry_os.Prelude.{
  ◌∙◌, ℕ, ◌≡◌, ◌≢◌, refl, ap, Bool, true, false, not, ◌&&◌, [], ◌∷◌, ◌++◌, arith, ◌==◌,
  if◌then◌else◌, ◌⊎◌, inl, inr, Bool-cases,
}
use ferry_os.Os.Compiler.Text.{Text, strip_from}

-- Whether the number of quotes leaves a string open behind a character, and behind a text, for
-- `StripComments`: an escaped quote counts as any other.
abbrev pub quoted : Bool → ℕ → Bool
quoted open_string c = if c == b'"' then not open_string else open_string

abbrev pub quoted_after : Bool → Text → Bool
quoted_after q [] = q
quoted_after q (c ∷ s) = quoted_after (quoted q c) s

-- A string is open by that count at all semicolons.
abbrev pub IsBare : Bool → Text → Type 0
IsBare q [] = Unit {0}
IsBare q (c ∷ s) = ((c ≢ b';') ⊎ (quoted q c ≡ true)) × IsBare (quoted q c) s

abbrev pub EndsLine : Text → Type 0
EndsLine [] = Unit {0}
EndsLine (c ∷ []) = c ≡ b'\n'
EndsLine (c ∷ d ∷ s) = EndsLine (d ∷ s)

strip_from-step :
    (q : Bool) (c d : ℕ) (s : Text)
    → (c == b';' && not (quoted q c)) ≡ false
    → strip_from q (c ∷ d ∷ s) ≡ c ∷ strip_from (quoted q c) (d ∷ s)
unfolding strip_from
strip_from-step q c d s other = rw other refl

strip_from-cut : (d : ℕ) (s : Text) → strip_from false (b';' ∷ d ∷ s) ≡ b'\n' ∷ []
unfolding strip_from
strip_from-cut d s = refl

kept :
    (q : Bool) (c : ℕ) → (c == b';' && not (quoted q c)) ≡ false → (c ≢ b';') ⊎ (quoted q c ≡ true)
kept q c other = elim (Bool-cases (c == b';')) [
  | inl semicolon ↦ inr (ground arith)
  | inr no_semicolon ↦ inl (ground arith)
]

outside : (q : Bool) (c : ℕ) → (c == b';' && not (quoted q c)) ≡ true → (c ≡ b';') × (q ≡ false)
outside false c cut = (ground arith, refl)
outside true c cut = ground arith

-- A line that ends with a newline is left as it is if each of its semicolons stands behind an odd
-- number of quotes, or an even one where a string was open at its start. Otherwise it is cut at the
-- first one that does not, with a newline in its place. A quote counts also behind a backslash, where
-- the lexer does not end the string.
pub strip_from-IsBare :
    (q : Bool) (s : Text)
    → EndsLine s
    → (IsBare q s × (strip_from q s ≡ s))
      ⊎ ((front : Text) × (rest : Text) × (s ≡ front ++ b';' ∷ rest)
          × IsBare q front
          × (quoted_after q front ≡ false)
          × (strip_from q s ≡ front ++ b'\n' ∷ []))
unfolding strip_from
strip_from-IsBare q [] h = inl (tt, refl)
strip_from-IsBare q (c ∷ []) h = inl ((inl (omega arith), tt), refl)
strip_from-IsBare q (c ∷ d ∷ s) h = elim (Bool-cases (c == b';' && not (quoted q c))) [
  | inl cut ↦
      let (semicolon, free) = outside q c cut in
      inr (
        [],
        d ∷ s,
        ap (λ a. a ∷ d ∷ s) semicolon,
        tt,
        free,
        rw (semicolon, free) (strip_from-cut d s),
      )
  | inr other ↦
      let step = strip_from-step q c d s other in
      elim (strip_from-IsBare (quoted q c) (d ∷ s) h) [
        | inl (bare, same) ↦ inl ((kept q c other, bare), step ∙ ap (λ l. c ∷ l) same)
        | inr (front, rest, split, bare, free, cut) ↦ inr (
          c ∷ front,
          rest,
          ap (λ l. c ∷ l) split,
          (kept q c other, bare),
          free,
          step ∙ ap (λ l. c ∷ l) cut,
        )
      ]
]
