-- ===== src/Os/PcbManager/Laws.antt =====
-- os/oscore/OSPcbManager.cpp: a block is free or created, never both, and the counter agrees.
use ferry_os.Prelude.{
  ℕ, zero, suc, ◌+◌, ◌-◌, ◌^◌, ◌≤◌, ◌<◌, ◌≡◌, refl, ap, true, false, ◌&&◌, none, some, List, [],
  ◌∷◌, ◌++◌, arith, length, length-append, ltb, leb, if◌then◌else◌, ◌⊎◌, inl, inr,
}
use ferry_os.Prelude.Words.{u16}
use ferry_os.Prelude.Count.{times, times-snoc}
use ferry_os.Os.Pcb.{Store, update, set_pid}
use ferry_os.Os.PcbManager.{
  PcbManager, Err, new, init_from, init, set_created, get_free_pcb, return_pcb,
}

pub record IsConsistent (n : ℕ) (m : PcbManager) : Type 0 where
  pub word : n < 2 ^ 16
  pub counted : m.proc_ctr + length m.free_list ≡ n
  pub free_once : (i : ℕ) → i < n → times i m.free_list ≡ (if m.created i then 0 else 1)
  pub in_range : (i : ℕ) → n ≤ i → times i m.free_list ≡ 0
  pub pids : (i : ℕ) → i < n → (m.pcbs i).pid ≡ i + 1

-- The loop of `init`.
init_from_lem :
    (k index j : ℕ) (m : PcbManager)
    → let m' = init_from k index m in
      let within = leb index j && ltb j (index + k) in
      (m'.proc_ctr ≡ m.proc_ctr)
      × (length m'.free_list ≡ length m.free_list + k)
      × (times j m'.free_list ≡ times j m.free_list + (if within then 1 else 0))
      × (m'.created j ≡ m.created j)
      × ((m'.pcbs j).pid ≡ (if within then u16 (j + 1) else (m.pcbs j).pid))
unfolding init_from
init_from_lem zero index j m = (refl, omega arith, ground arith, refl, ground arith)
init_from_lem (suc k) index j m = ground (
  arith,
  init_from_lem k (index + 1) j (record m {
    pcbs = update (set_pid (index + 1)) index m.pcbs;
    free_list = m.free_list ++ index ∷ [];
  }),
  times-snoc j m.free_list index,
  length-append m.free_list (index ∷ []),
)

-- A new manager of at most 65535 blocks is consistent after `init`: block `i` has pid `i + 1` and
-- every block is free.
pub init-IsConsistent : (n : ℕ) (pcbs : Store) → n < 2 ^ 16 → IsConsistent n (init n (new pcbs))
unfolding init new
init-IsConsistent n pcbs h = record {
  word = h;
  counted = omega (arith, init_from_lem n 0 0 (new pcbs));
  free_once = λ i lt. ground (arith, init_from_lem n 0 i (new pcbs));
  in_range = λ i le. ground (arith, init_from_lem n 0 i (new pcbs));
  pids = λ i lt. ground (arith, init_from_lem n 0 i (new pcbs));
}

-- The front of the free list of a consistent manager is a block that is not created.
front_free :
    (n i : ℕ) (rest : List ℕ) (m : PcbManager)
    → IsConsistent n m
    → m.free_list ≡ i ∷ rest
    → (i < n) × (m.created i ≡ false) × (m.proc_ctr + suc (length rest) ≡ n)
front_free n i rest m h e = (below, grind (arith, e, h.free_once i below), counted)
  where
    below : i < n
    below = ground (arith, e, h.in_range i)

    counted : m.proc_ctr + suc (length rest) ≡ n
    counted = omega (arith, h.counted, ap length e)

-- A consistent manager after the front block is taken.
abbrev taken : ℕ → List ℕ → PcbManager → PcbManager
taken i rest m = record m {
  free_list = rest;
  created = set_created ((m.pcbs i).pid - 1) true m.created;
  proc_ctr = u16 (m.proc_ctr + 1);
}

taken-IsConsistent :
    (n i : ℕ) (rest : List ℕ) (m : PcbManager)
    → IsConsistent n m
    → m.free_list ≡ i ∷ rest
    → IsConsistent n (taken i rest m) × ((taken i rest m).created i ≡ true)
taken-IsConsistent n i rest m h e =
    let (lt, fresh, room) = front_free n i rest m h e in
    (
      record {
        word = h.word;
        counted = omega (arith, room, h.word);
        free_once = λ j k. ground (arith, e, h.free_once j k, h.pids i lt);
        in_range = λ j k. ground (arith, e, h.in_range j k);
        pids = h.pids;
      },
      ground (arith, h.pids i lt),
    )

-- On a consistent manager the outcome of `getFreePCB` is an error just when all blocks are in use;
-- otherwise it takes a free block out of the free list, marks it as created and counts it.
pub get_free_pcb_lem :
    (n : ℕ) (m : PcbManager)
    → IsConsistent n m
    → ((m.proc_ctr ≡ n) × (get_free_pcb n m ≡ some (m, none, Err.no_free_pcb)))
      ⊎ ((m' : PcbManager) × (i : ℕ) × (m.proc_ctr < n)
          × (get_free_pcb n m ≡ some (m', some i, Err.no_err))
          × (i < n)
          × (m.created i ≡ false)
          × (m'.created i ≡ true)
          × IsConsistent n m')
unfolding get_free_pcb
get_free_pcb_lem n m h = go m.free_list refl
  where
    go :
        (free : List ℕ)
        → m.free_list ≡ free
        → ((m.proc_ctr ≡ n) × (get_free_pcb n m ≡ some (m, none, Err.no_free_pcb)))
          ⊎ ((m' : PcbManager) × (i : ℕ) × (m.proc_ctr < n)
              × (get_free_pcb n m ≡ some (m', some i, Err.no_err))
              × (i < n)
              × (m.created i ≡ false)
              × (m'.created i ≡ true)
              × IsConsistent n m')
    go [] e = inl (ground (arith, h.counted), ground (arith, h.counted))
    go (i ∷ rest) e =
        let (lt, fresh, room) = front_free n i rest m h e in
        let (good, mark) = taken-IsConsistent n i rest m h e in
        inr (taken i rest m, i, omega (arith, room), ground (arith, room), lt, fresh, mark, good)

-- With at least one block counted, returning a created block keeps the manager consistent, and marks
-- the block as free.
pub return_pcb-IsConsistent :
    (n i : ℕ) (m : PcbManager)
    → IsConsistent n m
    → i < n
    → m.created i ≡ true
    → 0 < m.proc_ctr
    → IsConsistent n (return_pcb i m) × ((return_pcb i m).created i ≡ false)
unfolding return_pcb
return_pcb-IsConsistent n i m h lt e p = (
  record {
    word = h.word;
    counted = ground (arith, h.counted, h.word, length-append m.free_list (i ∷ []));
    free_once = λ j k. ground (arith, h.free_once j k, h.pids i lt, times-snoc j m.free_list i);
    in_range = λ j k. ground (arith, h.in_range j k, times-snoc j m.free_list i);
    pids = λ j k. ground (arith, h.pids j k);
  },
  ground (arith, h.pids i lt),
)
