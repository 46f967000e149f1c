-- ===== src/Os/Compiler/Tables/Laws.antt =====
-- os/compiler/compiler.cpp: what is added to a table of symbols is found in it.
use ferry_os.Prelude.{
  ℕ, ◌≡◌, refl, ◌∙◌, Bool, true, none, some, List, [], ◌∷◌, ◌++◌, arith, length, All, Bool-cases,
  Option-cases, inl, inr, ◌⊎◌,
}
use ferry_os.Os.Compiler.Text.{Text}
use ferry_os.Os.Compiler.Build.Strings.{str_eq_refl}
use ferry_os.Os.Compiler.Tables.{SymbolNode, find, visible, get_symbol_by_ident, add_symbol}

module _ {ℓ} {A : Type ℓ} (test : A → Bool) where
  find-append_some :
      (xs ys : List A) (a : A) → find test xs ≡ some a → find test (xs ++ ys) ≡ some a
  unfolding find
  find-append_some [] ys a h = cc
  find-append_some (x ∷ xs) ys a h = elim (Bool-cases (test x)) [
    | inl hit ↦ rw hit (rw hit at h)
    | inr miss ↦ rw miss (find-append_some xs ys a (rw miss at h))
  ]

  find-append_none : (xs ys : List A) → find test xs ≡ none → find test (xs ++ ys) ≡ find test ys
  unfolding find
  find-append_none [] ys h = refl
  find-append_none (x ∷ xs) ys h = elim (Bool-cases (test x)) [
    | inl hit ↦ let bad : some x ≡ none = rw hit at h in absurd (cc)
    | inr miss ↦ rw miss (find-append_none xs ys (rw miss at h))
  ]

  find-snoc :
      (xs : List A) (y : A)
      → find test xs ≡ none
      → test y ≡ true
      → find test (xs ++ y ∷ []) ≡ some y
  unfolding find
  find-snoc xs y h hit = find-append_none xs (y ∷ []) h ∙ rw hit refl

All-map {ℓ κ μ} :
    {A : Type ℓ} (P : A → Type κ) (Q : A → Type μ) (xs : List A)
    → ((a : A) → P a → Q a)
    → All P xs
    → All Q xs
All-map P Q [] f h = tt
All-map P Q (x ∷ xs) f (h, hs) = (f x h, All-map P Q xs f hs)

pub All-snoc {ℓ κ} :
    {A : Type ℓ} (P : A → Type κ) (xs : List A) (y : A) → All P xs → P y → All P (xs ++ y ∷ [])
All-snoc P [] y h p = (p, tt)
All-snoc P (x ∷ xs) y (h, hs) p = (h, All-snoc P xs y hs p)

-- A symbol that is found by its name in its function.
abbrev pub IsFound : List SymbolNode → SymbolNode → Type 0
IsFound symbols s = get_symbol_by_ident s.symbol_ident s.symbol_func symbols ≡ some s

module _ (ident : Text) (type value : ℕ) (arr : Bool) (size stack func : ℕ)
    (symbols : List SymbolNode) where
  abbrev pub node : SymbolNode
  node = record {
    symbol_index = length symbols;
    symbol_ident = ident;
    symbol_type = type;
    init_value = value;
    is_arr = arr;
    symbol_size = size;
    stack_index = stack;
    symbol_func = func;
  }

  pub add_symbol_old :
      (s : SymbolNode)
      → get_symbol_by_ident ident func symbols ≡ some s
      → add_symbol ident type value arr size stack func symbols ≡ (symbols, none)
  unfolding add_symbol
  add_symbol_old s found = rw (found, add_symbol) refl

  pub add_symbol_new :
      get_symbol_by_ident ident func symbols ≡ none
      → add_symbol ident type value arr size stack func symbols
        ≡ (symbols ++ node ∷ [], some (length symbols))
  unfolding add_symbol
  add_symbol_new fresh = rw (fresh, add_symbol) refl

  node_found :
      get_symbol_by_ident ident func symbols ≡ none
      → get_symbol_by_ident ident func (symbols ++ node ∷ []) ≡ some node
  unfolding get_symbol_by_ident
  node_found fresh =
      find-snoc (visible ident func) symbols node fresh (ground (arith, str_eq_refl ident))

  append-IsFound : (s : SymbolNode) → IsFound symbols s → IsFound (symbols ++ node ∷ []) s
  unfolding get_symbol_by_ident
  append-IsFound s h =
      find-append_some (visible s.symbol_ident s.symbol_func) symbols (node ∷ []) s h

-- `AddSymbol` either finds a symbol of the name that the function sees, and changes nothing, or it
-- adds a symbol with the values that it was given. In a table where each symbol is found by its
-- name in its function, each one is then found so too.
pub add_symbol-IsFound :
    (ident : Text) (type value : ℕ) (arr : Bool) (size stack func : ℕ) (symbols : List SymbolNode)
    → All (IsFound symbols) symbols
    → let (symbols', index) = add_symbol ident type value arr size stack func symbols in
      All (IsFound symbols') symbols'
      × (((index ≡ none)
            × (symbols' ≡ symbols)
            × (s : SymbolNode) × (get_symbol_by_ident ident func symbols ≡ some s))
          ⊎ ((index ≡ some (length symbols))
              × (get_symbol_by_ident ident func symbols'
                  ≡ some (record {
                    symbol_index = length symbols;
                    symbol_ident = ident;
                    symbol_type = type;
                    init_value = value;
                    is_arr = arr;
                    symbol_size = size;
                    stack_index = stack;
                    symbol_func = func;
                  }))))
add_symbol-IsFound ident type value arr size stack func symbols h =
    elim (Option-cases (get_symbol_by_ident ident func symbols)) [
      | inl fresh ↦
          let new = node ident type value arr size stack func symbols in
          let here = node_found ident type value arr size stack func symbols fresh in
          let table = symbols ++ new ∷ [] in
          let kept =
            All-map (IsFound symbols) (IsFound table) symbols
              (append-IsFound ident type value arr size stack func symbols) h in
          rw (add_symbol_new ident type value arr size stack func symbols fresh)
            (All-snoc (IsFound table) symbols new kept here, inr (refl, here))
      | inr (s, found) ↦
          rw (add_symbol_old ident type value arr size stack func symbols s found)
            (h, inl (refl, refl, s, found))
    ]
