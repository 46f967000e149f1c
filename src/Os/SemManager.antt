-- ===== src/Os/SemManager.antt =====
-- os/oscore/OSSemManager.cpp: the array of semaphores and its free list.
pub mod Laws
use ferry_os.Prelude.{
  ℕ, zero, suc, ◌+◌, Bool, true, false, Option, none, some, List, [], ◌∷◌, ◌++◌, leb, ◌==◌,
  if◌then◌else◌,
}
use ferry_os.Os.Sem.{Sem, Sems, update_sem, set_id}
use ferry_os.Os.PcbManager.{Err}

pub record SemManager : Type 0 where
  pub sems : Sems
  pub is_free : ℕ → Bool
  pub free_list : List ℕ

abbrev pub set_free : ℕ → Bool → (ℕ → Bool) → ℕ → Bool
set_free i b is_free j = if i == j then b else is_free j

-- The loop of `init`, from `index` on with `n` rounds left.
unfoldable pub init_from : ℕ → ℕ → SemManager → SemManager
unfolding set_id
init_from zero index m = m
init_from (suc n) index m = init_from n (index + 1) (record {
  sems = update_sem (set_id index) index m.sems;
  is_free = set_free index true m.is_free;
  free_list = m.free_list ++ index ∷ [];
})

unfoldable pub init : ℕ → SemManager → SemManager
unfolding init_from
init max_sem m = init_from max_sem 0 m

unfoldable pub get_free_sem : SemManager → SemManager × Option ℕ × Err
get_free_sem m = elim m.free_list [
  | [] ↦ (m, none, Err.no_free_sem)
  | free ∷ rest ↦ (
    record m { is_free = set_free (m.sems free).id false m.is_free; free_list = rest },
    some free,
    Err.no_err,
  )
]

unfoldable pub return_sem : ℕ → SemManager → SemManager
return_sem id m =
    if m.is_free id
    then m
    else record m { free_list = m.free_list ++ id ∷ []; is_free = set_free id true m.is_free }

-- The test of `mIsFree[id]` has an empty body.
unfoldable pub get_sem : ℕ → ℕ → SemManager → Option ℕ
get_sem max_sem id m = if leb max_sem id then none else some id
