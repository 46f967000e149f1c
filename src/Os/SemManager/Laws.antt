-- ===== src/Os/SemManager/Laws.antt =====
-- os/oscore/OSSemManager.cpp: a semaphore is in the free list just when it is marked as free.
use ferry_os.Prelude.{
  ℕ, zero, suc, ◌+◌, ◌≤◌, ◌<◌, ◌≡◌, refl, true, false, ◌&&◌, none, some, List, [], ◌∷◌, ◌++◌, arith,
  ltb, leb, if◌then◌else◌, ◌⊎◌, inl, inr,
}
use ferry_os.Prelude.Count.{times, times-snoc}
use ferry_os.Os.PcbManager.{Err}
use ferry_os.Os.Sem.{update_sem, set_id}
use ferry_os.Os.SemManager.{SemManager, init_from, init, set_free, get_free_sem, return_sem}

pub record IsConsistent (n : ℕ) (m : SemManager) : Type 0 where
  pub free_once : (i : ℕ) → i < n → times i m.free_list ≡ (if m.is_free i then 1 else 0)
  pub in_range : (i : ℕ) → n ≤ i → times i m.free_list ≡ 0
  pub ids : (i : ℕ) → i < n → (m.sems i).id ≡ i

-- The loop of `init`.
init_from_lem :
    (k index j : ℕ) (m : SemManager)
    → let m' = init_from k index m in
      let within = leb index j && ltb j (index + k) in
      (times j m'.free_list ≡ times j m.free_list + (if within then 1 else 0))
      × (m'.is_free j ≡ (if within then true else m.is_free j))
      × ((m'.sems j).id ≡ (if within then j else (m.sems j).id))
unfolding init_from
init_from_lem zero index j m = (ground arith, ground arith, ground arith)
init_from_lem (suc k) index j m = ground (
  arith,
  init_from_lem k (index + 1) j (record {
    sems = update_sem (set_id index) index m.sems;
    is_free = set_free index true m.is_free;
    free_list = m.free_list ++ index ∷ [];
  }),
  times-snoc j m.free_list index,
)

-- A manager with an empty free list is consistent after `init`.
pub init_sems-IsConsistent : (n : ℕ) (m : SemManager) → m.free_list ≡ [] → IsConsistent n (init n m)
unfolding init
init_sems-IsConsistent n m e = record {
  free_once = λ i lt. ground (arith, e, init_from_lem n 0 i m);
  in_range = λ i le. ground (arith, e, init_from_lem n 0 i m);
  ids = λ i lt. ground (arith, init_from_lem n 0 i m);
}

-- The front of the free list of a consistent manager is free.
front_free :
    (n i : ℕ) (rest : List ℕ) (m : SemManager)
    → IsConsistent n m
    → m.free_list ≡ i ∷ rest
    → (i < n) × (m.is_free i ≡ true)
front_free n i rest m h e = (below, grind (arith, e, h.free_once i below))
  where
    below : i < n
    below = ground (arith, e, h.in_range i)

-- A consistent manager gives out a semaphore that was free and is so no more, or an error when none
-- is free; it stays consistent.
pub get_free_sem_lem :
    (n : ℕ) (m : SemManager)
    → IsConsistent n m
    → ((get_free_sem m ≡ (m, none, Err.no_free_sem)) × ((i : ℕ) → i < n → m.is_free i ≡ false))
      ⊎ ((m' : SemManager) × (i : ℕ) × (get_free_sem m ≡ (m', some i, Err.no_err))
          × (i < n)
          × (m.is_free i ≡ true)
          × (m'.is_free i ≡ false)
          × IsConsistent n m')
unfolding get_free_sem
get_free_sem_lem n m h = go m.free_list refl
  where
    go :
        (free : List ℕ)
        → m.free_list ≡ free
        → ((get_free_sem m ≡ (m, none, Err.no_free_sem)) × ((i : ℕ) → i < n → m.is_free i ≡ false))
          ⊎ ((m' : SemManager) × (i : ℕ) × (get_free_sem m ≡ (m', some i, Err.no_err))
              × (i < n)
              × (m.is_free i ≡ true)
              × (m'.is_free i ≡ false)
              × IsConsistent n m')
    go [] e = inl (ground arith, λ i lt. grind (arith, e, h.free_once i lt))
    go (i ∷ rest) e =
        let (lt, free) = front_free n i rest m h e in
        inr (
          record m { is_free = set_free (m.sems i).id false m.is_free; free_list = rest },
          i,
          ground arith,
          lt,
          free,
          ground (arith, h.ids i lt),
          record {
            free_once = λ j k. ground (arith, e, h.free_once j k, h.ids i lt);
            in_range = λ j k. ground (arith, e, h.in_range j k);
            ids = h.ids;
          },
        )

-- Returning a semaphore, also twice, keeps the manager consistent, and the semaphore is free.
pub return_sem-IsConsistent :
    (n id : ℕ) (m : SemManager)
    → IsConsistent n m
    → id < n
    → IsConsistent n (return_sem id m)
      × ((return_sem id m).is_free id ≡ true)
      × (return_sem id (return_sem id m) ≡ return_sem id m)
unfolding return_sem
return_sem-IsConsistent n id m h lt = (
  record {
    free_once = λ j k. ground (arith, h.free_once j k, times-snoc j m.free_list id);
    in_range = λ j k. ground (arith, h.in_range j k, times-snoc j m.free_list id);
    ids = λ j k. ground (arith, h.ids j k);
  },
  ground arith,
  ground arith,
)
