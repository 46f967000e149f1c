-- ===== src/Os/Scheduler.antt =====
-- os/scheduler/OSScheduler.cpp: round-robin scheduling of the ready queue, and timed waiting.
-- Results are none where the source follows a null pointer.
pub mod Queue
pub mod Timer
pub mod RoundRobin
use ferry_os.Prelude.{
  ℕ, ◌+◌, ◌-◌, Bool, true, false, not, ◌&&◌, Option, none, some, List, [], ◌∷◌, ◌++◌, ltb, ◌==◌,
  if◌then◌else◌, length,
}
use ferry_os.Prelude.Words.{u16}
use ferry_os.Os.Pcb.{
  Pcb, State, Store, update, set_state, set_delay, dec_delay, set_time_out, set_sem,
  is_waiting_event, is_suspend, inc_switch_ctr, remove_pid,
}
use ferry_os.Os.Sem.{Sems, remove_from_sem}

pub record Scheduler : Type 0 where
  pub pcb_curr : Option ℕ
  pub waiting_list : List ℕ
  pub ready_list : List ℕ
  pub next_to_run : Option ℕ
  pub idle_pcb : Option ℕ

unfoldable pub new : Scheduler
new = record {
  pcb_curr = none;
  waiting_list = [];
  ready_list = [];
  next_to_run = none;
  idle_pcb = none;
}

unfoldable pub get_next_to_run : Scheduler → Scheduler × Bool
get_next_to_run s = elim s.ready_list [
  | [] ↦ (s, false)
  | front ∷ rest ↦ (record s { next_to_run = some front; ready_list = rest }, true)
]

-- Comparing two pointers.
abbrev pub same : Option ℕ → Option ℕ → Bool
same none none = true
same none (some b) = false
same (some a) none = false
same (some a) (some b) = a == b

-- What `sched` does to the block that it puts on the CPU.
abbrev pub start_running : ℕ → Pcb → Pcb
start_running ticks p = set_delay ticks (set_state State.running p)

-- No process is ready: the current one goes on, or the idle one starts.
unfoldable pub keep_running : ℕ → Scheduler → Store → Option (Scheduler × Store)
unfolding set_delay set_state
keep_running ticks s st = elim s.pcb_curr [
  | some curr ↦ some (s, update (set_delay ticks) curr st)
  | none ↦ elim s.idle_pcb [
    | none ↦ none
    | some idle ↦ some (record s { pcb_curr = some idle }, update (start_running ticks) idle st)
  ]
]

-- The current process becomes ready; it queues up unless it is the idle one.
unfoldable pub swap_out : Scheduler → Store → Scheduler × Store
unfolding set_state
swap_out s st = elim s.pcb_curr [
  | none ↦ (s, st)
  | some curr ↦ (
    if same s.idle_pcb (some curr) then s else record s { ready_list = s.ready_list ++ curr ∷ [] },
    update (set_state State.ready) curr st,
  )
]

unfoldable pub swap_in : ℕ → Scheduler → Store → Option (Scheduler × Store)
unfolding set_delay set_state inc_switch_ctr
swap_in ticks s st = elim s.next_to_run [
  | none ↦ none
  | some next ↦ some (
    record s { pcb_curr = some next },
    update (λ p. inc_switch_ctr (start_running ticks p)) next st,
  )
]

-- `ticks` is `TICKS_PER_SCHED`.
unfoldable pub sched : ℕ → Scheduler → Store → Option (Scheduler × Store)
unfolding get_next_to_run keep_running swap_out swap_in
sched ticks s st =
    let (s', found) = get_next_to_run s in
    if not found
    then keep_running ticks s' st
    else let (out, st') = swap_out s' st in swap_in ticks out st'

unfoldable pub add_ready_pcb : ℕ → Scheduler → Scheduler
add_ready_pcb pcb s = record s { ready_list = s.ready_list ++ pcb ∷ [] }

unfoldable pub add_waiting_pcb : ℕ → Scheduler → Scheduler
add_waiting_pcb pcb s = record s { waiting_list = s.waiting_list ++ pcb ∷ [] }

unfoldable pub set_idle_pcb : ℕ → Scheduler → Scheduler
set_idle_pcb pcb s = record s { idle_pcb = some pcb }

abbrev pub is_waiting_state : State → Bool
is_waiting_state State.waiting = true
is_waiting_state _ = false

abbrev pub is_suspend_state : State → Bool
is_suspend_state State.suspend = true
is_suspend_state _ = false

abbrev time_out_wait : Pcb → Pcb
time_out_wait p =
    let q = set_sem none (set_time_out true p) in
    set_state (if is_waiting_state q.state then State.ready else State.swapped_ready) q

abbrev time_out_suspend : Pcb → Pcb
time_out_suspend p =
    set_state (if is_suspend_state p.state then State.ready else State.swapped_ready) p

-- What `caculateDelay` does to a block of the waiting queue whose delay has run out.
unfoldable pub time_out : Pcb → Pcb
unfolding set_sem set_time_out set_state is_waiting_event is_suspend
time_out p =
    if is_waiting_event p then time_out_wait p else if is_suspend p then time_out_suspend p else p

-- The semaphores after the same.
unfoldable pub leave_sem : ℕ → Store → Sems → Sems
unfolding is_waiting_event remove_from_sem
leave_sem i st ss = if is_waiting_event (st i) then remove_from_sem i st ss else ss

-- What the loop of `caculateDelay` works on, beside the part of the waiting queue that is left.
pub record Timers : Type 0 where
  pub kept : List ℕ
  pub woken : List ℕ
  pub pcbs : Store
  pub sems : Sems

-- One round, for block `wait`.
unfoldable pub tick_one : ℕ → Timers → Timers
unfolding dec_delay time_out leave_sem
tick_one wait t =
    if (t.pcbs wait).delay == 0
    then record t { kept = t.kept ++ wait ∷ [] }
    else let st = update dec_delay wait t.pcbs in
      if (st wait).delay == 0
      then record t {
        pcbs = update time_out wait st;
        sems = leave_sem wait st t.sems;
        woken = t.woken ++ wait ∷ [];
      }
      else record t { pcbs = st; kept = t.kept ++ wait ∷ [] }

unfoldable pub tick_all : List ℕ → Timers → Timers
tick_all [] t = t
tick_all (wait ∷ rest) t = tick_all rest (tick_one wait t)

-- `woken` starts as the ready queue, to which the loop pushes.
unfoldable pub caculate_delay : Scheduler → Store → Sems → Scheduler × Store × Sems
unfolding tick_all
caculate_delay s st ss =
    let t =
      tick_all s.waiting_list (record { kept = []; woken = s.ready_list; pcbs = st; sems = ss }) in
    (record s { waiting_list = t.kept; ready_list = t.woken }, t.pcbs, t.sems)

unfoldable pub to_swap_out_curr : Scheduler → Store → Option (Store × Bool)
unfolding dec_delay
to_swap_out_curr s st = elim s.pcb_curr [
  | none ↦ none
  | some curr ↦ let st' = update dec_delay curr st in some (st', (st' curr).delay == 0)
]

unfoldable pub remove_from_ready_list : Store → ℕ → Scheduler → Scheduler
unfolding remove_pid
remove_from_ready_list st pid s = record s { ready_list = remove_pid st pid s.ready_list }

unfoldable pub remove_from_waiting_list : Store → ℕ → Scheduler → Scheduler
unfolding remove_pid
remove_from_waiting_list st pid s = record s { waiting_list = remove_pid st pid s.waiting_list }

unfoldable pub remove_running : Scheduler → Scheduler × Option ℕ
remove_running s = (record s { pcb_curr = none }, s.pcb_curr)

unfoldable pub get_ready_num : Scheduler → ℕ
get_ready_num s = u16 (length s.ready_list)

unfoldable pub get_waiting_num : Scheduler → ℕ
get_waiting_num s = u16 (length s.waiting_list)
