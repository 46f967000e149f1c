-- ===== src/Os/Calls.antt =====
-- os/oscore/OSCore.cpp: the operations of the kernel that also switch the context of the processor.
pub mod Quit
pub mod Pend
pub mod Service
pub mod Delay
pub mod Delete
use ferry_os.Prelude.{
  ◌-◌, ℕ, ◌+◌, ◌%◌, ◌^◌, Bool, true, false, not, Option, none, some, List, [], ◌∷◌, ltb, ◌==◌,
  if◌then◌else◌, ◌||◌,
}
use ferry_os.Prelude.Words.{u16, u32, sub32}
use ferry_os.Config.{Config}
use ferry_os.Device.Mmu.State.{Mmu}
use ferry_os.Machine.{
  Machine, M, Core, pure, fault, ◌>>=◌, ◌>>◌, change_core, change_pcb, change_cpu, from_cpu,
  curr_pcb,
}
use ferry_os.Device.Processor.Stack.{save_context, reload_context, pop}
use ferry_os.Os.Pcb.{Pcb, State, set_delay, set_state, is_waiting_event}
use ferry_os.Os.Sem
use ferry_os.Os.Sem.{Sem, Sems, update_sem, remove_from_sem}
use ferry_os.Os.PcbManager.{PcbManager, Err, is_created, get_pcb, return_pcb}
use ferry_os.Os.SemManager.{SemManager, get_free_sem, return_sem, get_sem}
use ferry_os.Os.Scheduler.{
  Scheduler, sched, caculate_delay, to_swap_out_curr, remove_running, add_ready_pcb,
  add_waiting_pcb, remove_from_ready_list, remove_from_waiting_list,
}
use ferry_os.Os.Core.{run_sched, park, drop_running, delete_other, wait_core, time_tick, pid_curr}

abbrev pub try_core : {S : Type 0} → (Core → Option Core) → M S (Unit {0})
try_core f m = elim (f m.core) [ none ↦ none | some c ↦ some (tt, record m { core = c }) ]

module _ (cfg : Config) where
  unfoldable pub process_delete : ℕ → M Mmu Err
  unfolding curr_pcb
  process_delete pid m =
      if pid == 0 then some (Err.del_idle, m) else elim m.core.scheduler.pcb_curr [
        | none ↦ none
        | some curr ↦
            if (m.core.pcb_manager.pcbs curr).pid == pid || pid == pid_curr
            then (do
              try_core (drop_running cfg.ticks_per_sched curr)
              reload_context
              pure Err.no_err)
                m
            else elim (is_created cfg.maximum_tasks pid m.core.pcb_manager) [
              | none ↦ none
              | some false ↦ some (Err.del_invalid, m)
              | some true ↦ elim (get_pcb cfg.maximum_tasks pid m.core.pcb_manager) [
                | none ↦ none
                | some none ↦ none
                | some (some to_del) ↦
                    some (Err.no_err, record m { core = delete_other pid to_del m.core })
              ]
            ]
      ]

  unfoldable pub process_quit : M Mmu Err
  unfolding process_delete
  process_quit = process_delete pid_curr

  unfoldable pub process_delay : ℕ → M Mmu Err
  unfolding curr_pcb set_delay set_state
  process_delay delay = do
    to_delay ← curr_pcb
    change_pcb (λ p. set_state State.suspend (set_delay delay p)) to_delay
    save_context
    try_core (park cfg.ticks_per_sched to_delay)
    reload_context
    pure Err.no_err

  -- A block is looked at only where the process has to wait.
  unfoldable pub sem_pend : ℕ → ℕ → M Mmu Err
  unfolding wait_core
  sem_pend id delay m = elim (get_sem cfg.max_sem id m.core.sem_manager) [
    | none ↦ some (Err.sem_invalid, m)
    | some sem ↦ elim m.core.scheduler.pcb_curr [
      | none ↦
          if ltb 0 (m.core.sem_manager.sems sem).ctr
          then some (Err.no_err, record m { core = (wait_core sem 0 delay m.core).0 })
          else none
      | some curr ↦
          let (c, passed) = wait_core sem curr delay m.core in
          let m' = record m { core = c } in
          if passed
          then some (Err.no_err, m')
          else (do
            save_context
            try_core (park cfg.ticks_per_sched curr)
            reload_context
            pure Err.no_err)
              m'
    ]
  ]

  unfoldable pub call_int_service : ℕ → M Mmu (Unit {0})
  call_int_service int_num = do
    save_context
    (if int_num == 0 then try_core (time_tick cfg) else pure tt)
    reload_context

  unfoldable pub inc_free_time : M Mmu (Unit {0})
  inc_free_time = change_core (λ c. record c { free_time = u16 (c.free_time + 1) })

  -- `start`, up to the loop of the processor.
  unfoldable pub start : M Mmu (Unit {0})
  unfolding run_sched
  start m =
      if m.core.is_running
      then some (tt, m)
      else (do
        change_core (λ c. record c { is_running = true })
        try_core (run_sched cfg.ticks_per_sched)
        reload_context)
          m
