-- ===== src/Os/Calls/Delete.antt =====
-- os/oscore/OSCore.cpp: deleting a process by its pid.
use ferry_os.Prelude.{
  ℕ, ◌-◌, ◌<◌, ◌≡◌, ap, ◌∙◌, true, ◌&&◌, some, ◌≢◌, arith, leb, ◌==◌, if◌then◌else◌,
}
use ferry_os.Prelude.Count.{times, times-snoc}
use ferry_os.Config.{Config}
use ferry_os.Device.Mmu.State.{Mmu}
use ferry_os.Machine.{Machine, Core}
use ferry_os.Os.PcbManager.{Err, is_created, get_pcb, return_pcb}
use ferry_os.Os.PcbManager.Laws
use ferry_os.Os.Scheduler.{remove_from_ready_list, remove_from_waiting_list}
use ferry_os.Os.Core.{delete_other, pid_curr}
use ferry_os.Os.Calls.{process_delete}

pub returned :
    (pid i : ℕ) (c : Core)
    → ((delete_other pid i c).pcb_manager ≡ return_pcb i c.pcb_manager)
      × ((delete_other pid i c).scheduler.idle_pcb ≡ c.scheduler.idle_pcb)
unfolding delete_other remove_from_ready_list remove_from_waiting_list
returned pid i c = ground arith

module _ (cfg : Config) where
  -- Deleting a process by a pid that is not the one of the process on the CPU nor the code for it:
  -- pid 0 and the pid of no created process are refused with an error and leave the machine as it
  -- is, and any other process is deleted without error.
  pub process_delete_lem :
      (pid curr : ℕ) (m : Machine Mmu)
      → m.core.scheduler.pcb_curr ≡ some curr
      → (m.core.pcb_manager.pcbs curr).pid ≢ pid
      → pid ≢ pid_curr
      → process_delete cfg pid m
        ≡ some (
            if pid == 0
            then (Err.del_idle, m)
            else if leb pid cfg.maximum_tasks && m.core.pcb_manager.created (pid - 1)
            then (Err.no_err, record m { core = delete_other pid (pid - 1) m.core })
            else (Err.del_invalid, m))
  unfolding process_delete is_created get_pcb
  process_delete_lem pid curr m q other n = ground arith

  -- The idle process in the first block has the pid 1 and is not protected. While another process
  -- is on the CPU and the process manager is consistent, deleting it succeeds and puts its block
  -- into the free list, though the scheduler still falls back on it.
  pub process_delete-idle :
      (curr : ℕ) (m : Machine Mmu)
      → Laws.IsConsistent cfg.maximum_tasks m.core.pcb_manager
      → m.core.scheduler.idle_pcb ≡ some 0
      → m.core.pcb_manager.created 0 ≡ true
      → m.core.scheduler.pcb_curr ≡ some curr
      → 0 < curr
      → curr < cfg.maximum_tasks
      → (r : Machine Mmu) × (process_delete cfg 1 m ≡ some (Err.no_err, r))
        × (r.core.scheduler.idle_pcb ≡ some 0)
        × (0 < times 0 r.core.pcb_manager.free_list)
  unfolding return_pcb
  process_delete-idle curr m h e made q p lt =
      let (pm, idle) = returned 1 0 m.core in
      (
        record m { core = delete_other 1 0 m.core },
        process_delete_lem 1 curr m q (ground (arith, h.pids curr lt)) (ground arith)
            ∙ ground (arith, made, lt, p),
        idle ∙ e,
        ground
            (arith, ap (λ x. times 0 x.free_list) pm, times-snoc 0 m.core.pcb_manager.free_list 0),
      )
