-- ===== src/Os/Core.antt =====
-- os/oscore/OSCore.cpp: the operations of the kernel. The lock `mMtx` is left out: each call is one
-- step. What a call does to the machine is the composition of the calls that the source makes.
pub mod Process
pub mod Semaphore
pub mod Clock
use ferry_os.Prelude.{
  ◌-◌, ℕ, ◌+◌, ◌%◌, ◌^◌, Bool, true, false, not, Option, none, some, List, [], ◌∷◌, ltb, ◌==◌,
  if◌then◌else◌, ◌||◌,
}
use ferry_os.Prelude.Words.{u16, u32, sub32}
use ferry_os.Config.{Config}
use ferry_os.Machine.{Core}
use ferry_os.Os.Pcb.{Pcb, State, set_delay, set_state, is_waiting_event}
use ferry_os.Os.Sem
use ferry_os.Os.Sem.{Sem, Sems, update_sem, remove_from_sem}
use ferry_os.Os.PcbManager.{PcbManager, Err, is_created, get_pcb, return_pcb}
use ferry_os.Os.SemManager.{SemManager, get_free_sem, return_sem, get_sem}
use ferry_os.Os.Scheduler.{
  Scheduler, sched, caculate_delay, to_swap_out_curr, remove_running, add_ready_pcb,
  add_waiting_pcb, remove_from_ready_list, remove_from_waiting_list,
}

abbrev pub with_scheduler : (Scheduler → Scheduler) → Core → Core
with_scheduler f c = record c { scheduler = f c.scheduler }

abbrev pub with_pcbs : Scheduler → (ℕ → Pcb) → Core → Core
with_pcbs s st c =
    let pm = c.pcb_manager in record c { scheduler = s; pcb_manager = record pm { pcbs = st } }

-- `mScheduler->sched()` on the kernel.
unfoldable pub run_sched : ℕ → Core → Option Core
run_sched ticks c = elim (sched ticks c.scheduler c.pcb_manager.pcbs) [
  | none ↦ none
  | some (s, st) ↦ some (with_pcbs s st c)
]

abbrev pub is_ready : State → Bool
is_ready State.ready = true
is_ready _ = false

-- The last part of `processDelete`: a process that is not running leaves its queues.
unfoldable pub delete_other : ℕ → ℕ → Core → Core
delete_other pid to_del c =
    let st = c.pcb_manager.pcbs in
    if is_ready (st to_del).state
    then record c {
      scheduler = remove_from_ready_list st pid c.scheduler;
      pcb_manager = return_pcb to_del c.pcb_manager;
    }
    else let sm = c.sem_manager in
      let sems =
        if is_waiting_event (st to_del) then remove_from_sem to_del st sm.sems else sm.sems in
      record c {
        sem_manager = record sm { sems = sems };
        scheduler = remove_from_waiting_list st pid c.scheduler;
        pcb_manager = return_pcb to_del c.pcb_manager;
      }

-- The current process goes to the waiting queue and another one is chosen.
unfoldable pub park : ℕ → ℕ → Core → Option Core
unfolding run_sched
park ticks pcb c =
    run_sched ticks (with_scheduler (λ s. add_waiting_pcb pcb (remove_running s).0) c)

-- The current process is given up, another one is chosen, and the block is returned.
unfoldable pub drop_running : ℕ → ℕ → Core → Option Core
unfolding run_sched
drop_running ticks pcb c = elim (run_sched ticks (with_scheduler (λ s. (remove_running s).0) c)) [
  | none ↦ none
  | some d ↦ some (record d { pcb_manager = return_pcb pcb d.pcb_manager })
]

-- `PID_CURR`
abbrev pub pid_curr : ℕ
pid_curr = 0xffff

-- The id, or -1 as an INT16, and the error.
unfoldable pub sem_create : ℕ → ℕ → Core → Option (Core × ℕ × Err)
sem_create ctr lgst c =
    let (sm, sem, err) = get_free_sem c.sem_manager in
    elim sem [
      | none ↦ some (record c { sem_manager = sm }, 0xffff, err)
      | some i ↦ elim (Sem.init (u16 ctr) (u16 lgst) none 0 (sm.sems i)) [
        | none ↦ none
        | some s ↦ some (
          record c { sem_manager = record sm { sems = update_sem (λ _. s) i sm.sems } },
          s.id,
          err,
        )
      ]
    ]

-- `sem->wait(curr, delay)` on the kernel.
unfoldable pub wait_core : ℕ → ℕ → ℕ → Core → Core × Bool
wait_core sem curr delay c =
    let sm = c.sem_manager in
    let pm = c.pcb_manager in
    let (s, st, passed) = Sem.wait sem curr delay (sm.sems sem) pm.pcbs in
    (
      record c {
        sem_manager = record sm { sems = update_sem (λ _. s) sem sm.sems };
        pcb_manager = record pm { pcbs = st };
      },
      passed,
    )

unfoldable pub tick_timers : Core → Core
tick_timers c =
    let sm = c.sem_manager in
    let (s, st, ss) = caculate_delay c.scheduler c.pcb_manager.pcbs sm.sems in
    record (with_pcbs s st c) { sem_manager = record sm { sems = ss } }

unfoldable pub int_enter : Core → Core
int_enter c =
    if not c.is_running
    then c
    else if ltb c.int_nesting 0xff
    then record c { int_nesting = c.int_nesting + 1 }
    else c

unfoldable pub int_exit : Core → Core
int_exit c =
    if not c.is_running
    then c
    else if ltb 0 c.int_nesting
    then record c { int_nesting = c.int_nesting - 1 }
    else c

module _ (cfg : Config) where
  -- The result of `semAccept`.
  unfoldable pub sem_accept : ℕ → Core → Core × Bool
  sem_accept id c = elim (get_sem cfg.max_sem id c.sem_manager) [
    | none ↦ (c, false)
    | some sem ↦
        let sm = c.sem_manager in
        let ctr = (sm.sems sem).ctr in
        if ltb 0 ctr
        then (
          record c {
            sem_manager = record sm { sems = update_sem (Sem.set_ctr (ctr - 1)) sem sm.sems };
          },
          true,
        )
        else (c, false)
  ]

  unfoldable pub sem_delete : ℕ → Core → Core × Err
  sem_delete id c = elim (get_sem cfg.max_sem id c.sem_manager) [
    | none ↦ (c, Err.sem_invalid)
    | some sem ↦
        if Sem.has_pend (c.sem_manager.sems sem)
        then (c, Err.sem_del_pending)
        else (record c { sem_manager = return_sem id c.sem_manager }, Err.no_err)
  ]

  unfoldable pub sem_post : ℕ → Core → Core × Err
  sem_post id c = elim (get_sem cfg.max_sem id c.sem_manager) [
    | none ↦ (c, Err.sem_invalid)
    | some sem ↦
        let sm = c.sem_manager in
        let pm = c.pcb_manager in
        let (s, st, woken) = Sem.signal (sm.sems sem) pm.pcbs in
        let d = record c {
          sem_manager = record sm { sems = update_sem (λ _. s) sem sm.sems };
          pcb_manager = record pm { pcbs = st };
        } in
        elim woken [
          | none ↦ (d, Err.sem_post_no_pend)
          | some i ↦ (
            with_scheduler (λ q. add_ready_pcb i (remove_from_waiting_list st (st i).pid q)) d,
            Err.no_err,
          )
        ]
  ]

  -- `clearFreeTime` is part of the branch that measures the load.
  unfoldable pub measure_load : Core → Core
  measure_load c =
      let hz = u32 cfg.cpu_rate in
      record c { cpu_usage = (sub32 hz c.free_time, hz); free_time = 0 }

  unfoldable pub preempt : Core → Option Core
  unfolding run_sched
  preempt c = elim (to_swap_out_curr c.scheduler c.pcb_manager.pcbs) [
    | none ↦ none
    | some (st, true) ↦ run_sched cfg.ticks_per_sched (with_pcbs c.scheduler st c)
    | some (st, false) ↦ some (with_pcbs c.scheduler st c)
  ]

  unfoldable pub time_tick : Core → Option Core
  unfolding measure_load tick_timers preempt
  time_tick c =
      if not c.is_running
      then some c
      else if cfg.ticks_per_sec == 0
      then none
      else let d = record c { time = u32 (c.time + 1) } in
        preempt (tick_timers (if d.time % cfg.ticks_per_sec == 0 then measure_load d else d))
