-- ===== src/Os/Compiler/Outcome.antt =====
-- os/compiler/compiler.cpp, config/fasmconfig.h: how a call of the assembler ends.
use ferry_os.Prelude.{◌≡◌, refl, Bool, true, false, Option, none, some, if◌then◌else◌}

-- The error codes of fasmconfig.h.
pub data CompileErr : Type 0 where
  file_not_found malloc_failed build_file_failed local_set_stack_size : CompileErr
  multiple_set_stack_size invalid_stack_size local_def_string ident_expected : CompileErr
  str_not_def invalid_str ident_redefinition invalid_array_size nested_func : CompileErr
  func_redefine global_instr invalid_label global_label label_redefine : CompileErr
  invalid_op undef_ident arr_not_indexed undef_func char_expected invalid_input : CompileErr

-- A value, an error code, behaviour that C++ leaves undefined, or a loop cut short by the bound that
-- the model gives it.
pub data Outcome {ℓ} (A : Type ℓ) : Type ℓ where
  ok : A → Outcome A
  failed : CompileErr → Outcome A
  undefined : Outcome A
  unfinished : Outcome A

infixl 5 ◌>>=◌
unfoldable pub ◌>>=◌ {ℓ κ} : {A : Type ℓ} {B : Type κ} → Outcome A → (A → Outcome B) → Outcome B
ok a >>= f = f a
failed e >>= f = failed e
undefined >>= f = undefined
unfinished >>= f = unfinished

-- The value, where there is one.
abbrev pub defined {ℓ} : {A : Type ℓ} → Option A → Outcome A
defined none = undefined
defined (some a) = ok a

-- A loop that is not cut short, with what holds of the value if there is one.
pub data Ends {A : Type 0} (P : A → Type 0) : Outcome A → Type 0 where
  ends : (a : A) → P a → Ends P (ok a)
  fails : (e : CompileErr) → Ends P (failed e)
  undef : Ends P undefined

pub Ends-bind :
    {A B : Type 0} (P : A → Type 0) {Q : B → Type 0} {m : Outcome A} {f : A → Outcome B}
    → Ends P m
    → ((a : A) → P a → Ends Q (f a))
    → Ends Q (m >>= f)
unfolding ◌>>=◌
Ends-bind P (ends a p) k = k a p
Ends-bind P (fails e) k = fails e
Ends-bind P undef k = undef

pub Ends-if :
    {A : Type 0} {P : A → Type 0} (b : Bool) {m n : Outcome A}
    → (b ≡ true → Ends P m)
    → (b ≡ false → Ends P n)
    → Ends P (if b then m else n)
Ends-if true h k = h refl
Ends-if false h k = k refl

pub Ends-map :
    {A : Type 0} {P Q : A → Type 0} {m : Outcome A} → Ends P m → ((a : A) → P a → Q a) → Ends Q m
Ends-map (ends a p) k = ends a (k a p)
Ends-map (fails e) k = fails e
Ends-map undef k = undef

pub Ends-defined : {A : Type 0} (o : Option A) → Ends (λ a. o ≡ some a) (defined o)
Ends-defined none = undef
Ends-defined (some a) = ends a refl

pub Ends-fits :
    {A : Type 0} {P : A → Type 0} (b : Bool) (a : A) → P a → Ends P (if b then ok a else undefined)
Ends-fits true a p = ends a p
Ends-fits false a p = undef
