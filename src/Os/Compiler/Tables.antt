-- ===== src/Os/Compiler/Tables.antt =====
-- os/compiler/compiler.cpp: the tables of strings, functions, labels and symbols.
-- A LinkedList is the list of the data of its nodes, and its iNodeCount the length. An int is its
-- bit pattern; an index that may be -1 is an option.
pub mod Laws
use mathlib.Core.Option
use ferry_os.Prelude.{
  ℕ, zero, suc, ◌+◌, Bool, true, false, ◌&&◌, ◌||◌, not, Option, none, some, List, [], ◌∷◌, ◌++◌,
  ◌==◌, if◌then◌else◌, length,
}
use ferry_os.Prelude.Words.{is_neg}
use ferry_os.Os.Compiler.Text.{Text, str_eq}

pub record FuncNode : Type 0 where
  pub func_index : ℕ
  pub func_name : Text
  pub entry_point : ℕ
  pub local_data_size : ℕ

pub record LabelNode : Type 0 where
  pub label_index : ℕ
  pub label_ident : Text
  pub target_index : ℕ
  pub label_func : ℕ

-- `symbol_type` is OP_TYPE_INT or OP_TYPE_STRING_REF.
pub record SymbolNode : Type 0 where
  pub symbol_index : ℕ
  pub symbol_ident : Text
  pub symbol_type : ℕ
  pub init_value : ℕ
  pub is_arr : Bool
  pub symbol_size : ℕ
  pub stack_index : ℕ
  pub symbol_func : ℕ

-- The new list and the index of the node.
abbrev pub add_node {ℓ} : {A : Type ℓ} → A → List A → List A × ℕ
add_node node list = (list ++ node ∷ [], length list)

-- The first node that passes the test.
unfoldable pub find {ℓ} : {A : Type ℓ} → (A → Bool) → List A → Option A
find test [] = none
find test (node ∷ list) = if test node then some node else find test list

-- The new table and the number of bytes in front of the string, each with the 4 of its length.
unfoldable pub add_string : Text → List Text → List Text × ℕ
add_string string [] = (string ∷ [], 0)
add_string string (node ∷ list) =
    let (list', size) = add_string string list in
    if str_eq node string then (node ∷ list, 0) else (node ∷ list', length node + 4 + size)

abbrev named : Text → FuncNode → Bool
named name f = str_eq f.func_name name

unfoldable pub get_func_by_name : Text → List FuncNode → Option FuncNode
unfolding find
get_func_by_name name funcs = find (named name) funcs

-- `unset` is the size of the local data in the memory that the node gets.
unfoldable pub add_func : ℕ → Text → ℕ → List FuncNode → List FuncNode × Option ℕ
unfolding get_func_by_name
add_func unset name entry funcs = elim (get_func_by_name name funcs) [
  | some f ↦ (funcs, none)
  | none ↦
      let node : FuncNode = record {
        func_index = length funcs;
        func_name = name;
        entry_point = entry;
        local_data_size = unset;
      } in
      let (funcs', index) = add_node node funcs in (funcs', some index)
]

-- None where no function has the name, and the source follows a null pointer.
unfoldable pub set_func_info : Text → ℕ → List FuncNode → Option (List FuncNode)
set_func_info name size [] = none
set_func_info name size (f ∷ funcs) =
    let rest = Option.map (λ fs. f ∷ fs) (set_func_info name size funcs) in
    if str_eq f.func_name name then some (record f { local_data_size = size } ∷ funcs) else rest

abbrev labels_in : Text → ℕ → LabelNode → Bool
labels_in ident func l = str_eq l.label_ident ident && l.label_func == func

unfoldable pub get_label_by_ident : Text → ℕ → List LabelNode → Option LabelNode
unfolding find
get_label_by_ident ident func labels = find (labels_in ident func) labels

unfoldable pub add_label : Text → ℕ → ℕ → List LabelNode → List LabelNode × Option ℕ
unfolding get_label_by_ident
add_label ident target func labels = elim (get_label_by_ident ident func labels) [
  | some l ↦ (labels, none)
  | none ↦
      let node : LabelNode = record {
        label_index = length labels;
        label_ident = ident;
        target_index = target;
        label_func = func;
      } in
      let (labels', index) = add_node node labels in (labels', some index)
]

-- A symbol is seen in its function, and everywhere if its place on the stack is not negative.
abbrev pub visible : Text → ℕ → SymbolNode → Bool
visible ident func s =
    str_eq s.symbol_ident ident && (s.symbol_func == func || not (is_neg s.stack_index))

unfoldable pub get_symbol_by_ident : Text → ℕ → List SymbolNode → Option SymbolNode
unfolding find
get_symbol_by_ident ident func symbols = find (visible ident func) symbols

unfoldable pub add_symbol :
    Text → ℕ → ℕ → Bool → ℕ → ℕ → ℕ → List SymbolNode → List SymbolNode × Option ℕ
unfolding get_symbol_by_ident
add_symbol ident type value arr size stack func symbols =
    elim (get_symbol_by_ident ident func symbols) [
      | some s ↦ (symbols, none)
      | none ↦
          let node : SymbolNode = record {
            symbol_index = length symbols;
            symbol_ident = ident;
            symbol_type = type;
            init_value = value;
            is_arr = arr;
            symbol_size = size;
            stack_index = stack;
            symbol_func = func;
          } in
          let (symbols', index) = add_node node symbols in (symbols', some index)
    ]

-- The fields of a symbol; none where it is not found and a null pointer is followed.
unfoldable pub get_stack_index_by_ident : Text → ℕ → List SymbolNode → Option ℕ
unfolding get_symbol_by_ident
get_stack_index_by_ident ident func symbols =
    Option.map (λ s. s.stack_index) (get_symbol_by_ident ident func symbols)

unfoldable pub get_size_by_ident : Text → ℕ → List SymbolNode → Option ℕ
unfolding get_symbol_by_ident
get_size_by_ident ident func symbols =
    Option.map (λ s. s.symbol_size) (get_symbol_by_ident ident func symbols)

unfoldable pub get_is_arr_by_ident : Text → ℕ → List SymbolNode → Option Bool
unfolding get_symbol_by_ident
get_is_arr_by_ident ident func symbols =
    Option.map (λ s. s.is_arr) (get_symbol_by_ident ident func symbols)
