-- ===== src/Os/PcbManager.antt =====
-- os/oscore/OSPcbManager.cpp: the array of process control blocks and its free list.
-- Results are none where the source reads behind an array or takes the front of an empty list.
pub mod Laws
use ferry_os.Prelude.{
  ℕ, zero, suc, ◌+◌, ◌-◌, Bool, true, false, Option, none, some, List, [], ◌∷◌, ◌++◌, ltb, leb,
  ◌==◌, if◌then◌else◌,
}
use ferry_os.Prelude.Words.{u16}
use ferry_os.Os.Pcb.{Pcb, State, Store, update, set_pid, clear}

-- `created` and `pcbs` are the arrays; they are read at indices below `MAXIMUM_TASKS` only.
pub record PcbManager : Type 0 where
  pub free_list : List ℕ
  pub created : ℕ → Bool
  pub pcbs : Store
  pub proc_ctr : ℕ

-- The error codes of OS.h that the kernel returns.
pub data Err : Type 0 where
  no_err no_free_pcb del_invalid del_idle no_free_sem sem_invalid sem_del_pending sem_post_no_pend :
      Err

-- The constructor: the blocks are as `OSPcb::OSPcb` leaves them.
unfoldable pub new : Store → PcbManager
new pcbs = record { free_list = []; created = λ _. false; pcbs = pcbs; proc_ctr = 0 }

-- The loop of `init`, from `index` on with `n` rounds left.
unfoldable pub init_from : ℕ → ℕ → PcbManager → PcbManager
unfolding set_pid
init_from zero index m = m
init_from (suc n) index m = init_from n (index + 1) (record m {
  pcbs = update (set_pid (index + 1)) index m.pcbs;
  free_list = m.free_list ++ index ∷ [];
})

unfoldable pub init : ℕ → PcbManager → PcbManager
unfolding init_from
init maximum_tasks m = init_from maximum_tasks 0 m

pub record ProcState : Type 0 where
  pub pid : ℕ
  pub proc_name : List ℕ
  pub state : State
  pub switch_cnt : ℕ
  pub total_cycles : ℕ

abbrev pub proc_state : Pcb → ProcState
proc_state p = record {
  pid = p.pid;
  proc_name = p.name;
  state = p.state;
  switch_cnt = p.switch_ctr;
  total_cycles = p.total_cycles;
}

-- The loop of `getProcStates`.
unfoldable pub get_proc_states_from : ℕ → ℕ → PcbManager → List ProcState → List ProcState
get_proc_states_from zero index m info = info
get_proc_states_from (suc n) index m info =
    get_proc_states_from n (index + 1) m
      (if m.created index then info ++ proc_state (m.pcbs index) ∷ [] else info)

unfoldable pub get_proc_states : ℕ → PcbManager → List ProcState
unfolding get_proc_states_from
get_proc_states maximum_tasks m = get_proc_states_from maximum_tasks 0 m []

unfoldable pub is_created : ℕ → ℕ → PcbManager → Option Bool
is_created maximum_tasks pid m =
    if ltb maximum_tasks pid
    then some false
    else if pid == 0
    then none
    else some (m.created (pid - 1))

abbrev pub set_created : ℕ → Bool → (ℕ → Bool) → ℕ → Bool
set_created i b created j = if i == j then b else created j

-- The free block, or the error.
unfoldable pub get_free_pcb : ℕ → PcbManager → Option (PcbManager × Option ℕ × Err)
get_free_pcb maximum_tasks m =
    if m.proc_ctr == maximum_tasks then some (m, none, no_free_pcb) else elim m.free_list [
      | [] ↦ none
      | free ∷ rest ↦ some (
        record m {
          free_list = rest;
          created = set_created ((m.pcbs free).pid - 1) true m.created;
          proc_ctr = u16 (m.proc_ctr + 1);
        },
        some free,
        no_err,
      )
    ]

unfoldable pub return_pcb : ℕ → PcbManager → PcbManager
unfolding clear
return_pcb pcb m =
    let pcbs = update clear pcb m.pcbs in
    record m {
      pcbs = pcbs;
      free_list = m.free_list ++ pcb ∷ [];
      created = set_created ((pcbs pcb).pid - 1) false m.created;
      proc_ctr = u16 (m.proc_ctr + 0xffff);
    }

unfoldable pub get_pcb : ℕ → ℕ → PcbManager → Option (Option ℕ)
unfolding is_created
get_pcb maximum_tasks pid m = elim (is_created maximum_tasks pid m) [
  | none ↦ none
  | some true ↦ some (some (pid - 1))
  | some false ↦ some none
]
