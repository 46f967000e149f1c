-- ===== src/Os/Sem.antt =====
-- os/oscore/OSSem.cpp: counting semaphores with a queue of waiting processes.
pub mod Laws
use mathlib.Core.Option
use ferry_os.Prelude.{
  suc, ℕ, ◌+◌, ◌-◌, ◌^◌, Bool, true, false, not, Option, none, some, List, [], ◌∷◌, ◌++◌, ltb, leb,
  ◌==◌, if◌then◌else◌, replicate, length,
}
use ferry_os.Prelude.Words.{u16, copy_string}
use ferry_os.Os.Pcb.{
  Pcb, State, Store, update, set_state, set_time_out, set_delay, set_sem, remove_pid,
}

pub record Sem : Type 0 where
  pub id : ℕ
  pub ctr : ℕ
  pub largest_ctr : ℕ
  pub name : List ℕ
  pub waiting_list : List ℕ

-- `SEM_NAME_SIZE`
abbrev pub sem_name_size : ℕ
sem_name_size = 64

-- `name` is none for the null pointer. The result is none where a byte behind the buffer is written.
unfoldable pub set_name : Option (List ℕ) → ℕ → Sem → Option Sem
unfolding copy_string
set_name none n s = some (record s { name = replicate sem_name_size 0 })
set_name (some name) n s =
    let cut = if ltb sem_name_size n then sem_name_size - 1 else n in
    Option.map (λ buffer. record s { name = buffer }) (copy_string cut name s.name)

unfoldable pub init : ℕ → ℕ → Option (List ℕ) → ℕ → Sem → Option Sem
unfolding set_name
init init_ctr largest_ctr name n s =
    set_name name n (record s { ctr = init_ctr; largest_ctr = largest_ctr })

unfoldable pub has_pend : Sem → Bool
has_pend s = not (length s.waiting_list == 0)

-- What `wait` does to the block of a process that has to wait on semaphore `this`.
abbrev pub block_on : ℕ → ℕ → Pcb → Pcb
block_on this delay p =
    set_sem (some this) (set_delay delay (set_time_out false (set_state State.waiting p)))

-- `this` is the index of the semaphore, `pcb` that of the block.
unfoldable pub wait : ℕ → ℕ → ℕ → Sem → Store → Sem × Store × Bool
unfolding set_sem set_delay set_time_out set_state
wait this pcb delay s st = if ltb 0 s.ctr then (record s { ctr = s.ctr - 1 }, st, true) else (
  record s { waiting_list = s.waiting_list ++ pcb ∷ [] },
  update (block_on this delay) pcb st,
  false,
)

abbrev pub is_swapped_waiting : State → Bool
is_swapped_waiting State.swapped_waiting = true
is_swapped_waiting _ = false

-- What `signal` does to the block of the process that it takes from the queue.
abbrev pub unblock : Pcb → Pcb
unblock p =
    let state = if is_swapped_waiting p.state then State.swapped_ready else State.ready in
    set_sem none (set_delay 0 (set_time_out false (set_state state p)))

-- The result names the process that becomes ready, or none.
unfoldable pub signal : Sem → Store → Sem × Store × Option ℕ
unfolding set_sem set_delay set_time_out set_state
signal s st = elim s.waiting_list [
  | [] ↦ (if ltb s.ctr s.largest_ctr then record s { ctr = u16 (s.ctr + 1) } else s, st, none)
  | front ∷ rest ↦ (record s { waiting_list = rest }, update unblock front st, some front)
]

unfoldable pub set_id : ℕ → Sem → Sem
set_id id s = record s { id = id }

unfoldable pub set_ctr : ℕ → Sem → Sem
set_ctr ctr s = if ltb s.largest_ctr ctr then s else record s { ctr = ctr }

unfoldable pub set_largest : ℕ → Sem → Sem
set_largest largest s = if ltb largest s.ctr then s else record s { largest_ctr = largest }

unfoldable pub remove_waiting : Store → ℕ → Sem → Sem
unfolding remove_pid
remove_waiting st pid s = record s { waiting_list = remove_pid st pid s.waiting_list }

-- The array of semaphores that the semaphore manager owns.
abbrev pub Sems : Type 0
Sems = ℕ → Sem

abbrev pub update_sem : (Sem → Sem) → ℕ → Sems → Sems
update_sem f i ss j = if i == j then f (ss j) else ss j

-- `OSPcb::removeFromSem` of block `i`.
unfoldable pub remove_from_sem : ℕ → Store → Sems → Sems
unfolding remove_waiting
remove_from_sem i st ss = elim (st i).sem_ptr [
  | none ↦ ss
  | some sem ↦ update_sem (remove_waiting st (st i).pid) sem ss
]
