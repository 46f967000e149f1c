-- ===== src/Os/Compiler/Build/Strings.antt =====
-- os/compiler/compiler.cpp: the index of a string is its place in the table that is written.
use mathlib.Core.List.{append-nil}
use ferry_os.Prelude.{
  ℕ, zero, suc, ◌+◌, ◌≡◌, refl, sym, ap, ◌∙◌, List, [], ◌∷◌, ◌++◌, arith, length, true, Bool-cases,
  inl, inr,
}
use ferry_os.Bytes.{int_bytes}
use ferry_os.Os.Compiler.Text.{Text, str_eq}
use ferry_os.Os.Compiler.Tables.{add_string}
use ferry_os.Os.Compiler.Lexer.{drop_chars}
use ferry_os.Os.Compiler.Build.{string_bytes}

pub str_eq→eq : (a b : Text) → str_eq a b ≡ true → a ≡ b
unfolding str_eq
str_eq→eq [] [] h = refl
str_eq→eq [] (d ∷ b) h = cc
str_eq→eq (c ∷ a) [] h = cc
str_eq→eq (c ∷ a) (d ∷ b) h = ground (arith, str_eq→eq a b)

pub str_eq_refl : (a : Text) → str_eq a a ≡ true
unfolding str_eq
str_eq_refl [] = refl
str_eq_refl (c ∷ a) = ground (arith, str_eq_refl a)

drop_chars-add :
    (m n : ℕ) (xs ys : List ℕ) → m ≡ length xs → drop_chars (m + n) (xs ++ ys) ≡ drop_chars n ys
drop_chars-add zero n [] ys h = let e : 0 + n ≡ n = omega arith in ap (λ k. drop_chars k ys) e
drop_chars-add zero n (x ∷ xs) ys h = absurd (omega arith)
drop_chars-add (suc m) n [] ys h = absurd (omega arith)
drop_chars-add (suc m) n (x ∷ xs) ys h =
    let e : suc m + n ≡ suc (m + n) = omega arith in
    ap (λ k. drop_chars k (x ∷ (xs ++ ys))) e ∙ drop_chars-add m n xs ys (omega arith)

-- Whether or not the string was in the table: the bytes of the new table at its index are its length
-- and its characters, and the old strings keep their places, for the table only grows at its end.
pub add_string-place :
    (string : Text) (table : List Text)
    → let (table', index) = add_string string table in
      ((rest : List ℕ) × (drop_chars index (string_bytes table')
          ≡ int_bytes (length string) ++ (string ++ rest)))
      × ((new : List Text) × (table' ≡ table ++ new))
unfolding add_string string_bytes
add_string-place string [] = (([], refl), (string ∷ [], refl))
add_string-place string (node ∷ table) = elim (Bool-cases (str_eq node string)) [
  | inl same ↦ rw same (
    (string_bytes table, rw (str_eq→eq node string same) refl),
    ([], ap (λ l. node ∷ l) (sym (append-nil table))),
  )
  | inr other ↦
      let ((rest, found), (new, grown)) = add_string-place string table in
      let (table', index) = add_string string table in
      rw other (
        (
          rest,
          drop_chars-add (length node + 4) index (int_bytes (length node) ++ node)
                (string_bytes table') (omega arith)
              ∙ found,
        ),
        (new, ap (λ l. node ∷ l) grown),
      )
]
