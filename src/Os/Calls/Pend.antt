-- ===== src/Os/Calls/Pend.antt =====
-- os/oscore/OSCore.cpp: waiting for a semaphore.
use ferry_os.Prelude.{
  ℕ, ◌≤◌, ◌<◌, ◌≡◌, refl, ap, subst, sym, ◌∙◌, false, none, some, [], ◌∷◌, ◌++◌, ◌≢◌, arith,
}
use ferry_os.Config.{Config}
use ferry_os.Device.Mmu.State.{Mmu}
use ferry_os.Machine.{Machine, Core, M, pure, ◌>>◌, bind-some}
use ferry_os.Device.Processor.Stack.{save_context, reload_context}
use ferry_os.Device.Processor.Stack.Frame.{save_context-IsSwitched}
use ferry_os.Os.Pcb.{update}
use ferry_os.Os.Sem.{Sem, block_on, update_sem}
use ferry_os.Os.Sem
use ferry_os.Os.PcbManager.{Err}
use ferry_os.Os.SemManager.{get_sem}
use ferry_os.Os.Core.{park, wait_core}
use ferry_os.Os.Core.Process.{park-places}
use ferry_os.Os.Scheduler.Queue.{places}
use ferry_os.Os.Calls.Service.{try_core-some}
use ferry_os.Os.Calls.{sem_pend, try_core}

-- The kernel with process `curr` queued at semaphore `sem`.
abbrev pub blocked : ℕ → ℕ → ℕ → Core → Core
blocked sem curr delay c =
    let sm = c.sem_manager in
    let pm = c.pcb_manager in
    let s = sm.sems sem in
    record c {
      sem_manager = record sm {
        sems =
            update_sem (λ _. record s { waiting_list = s.waiting_list ++ curr ∷ [] }) sem sm.sems;
      };
      pcb_manager = record pm { pcbs = update (block_on sem delay) curr pm.pcbs };
    }

wait_core-blocked :
    (sem curr delay : ℕ) (c : Core)
    → (c.sem_manager.sems sem).ctr ≡ 0
    → wait_core sem curr delay c ≡ (blocked sem curr delay c, false)
unfolding wait_core Sem.wait
wait_core-blocked sem curr delay c e = rw e refl

module _ (cfg : Config) where
  abbrev switch : ℕ → M Mmu Err
  switch curr = do
    save_context
    try_core (park cfg.ticks_per_sched curr)
    reload_context
    pure Err.no_err

  sem_pend-switch :
      (id delay curr : ℕ) (m : Machine Mmu)
      → id < cfg.max_sem
      → (m.core.sem_manager.sems id).ctr ≡ 0
      → m.core.scheduler.pcb_curr ≡ some curr
      → sem_pend cfg id delay m ≡ switch curr (record m { core = blocked id curr delay m.core })
  unfolding sem_pend get_sem
  sem_pend-switch id delay curr m lt e q = ground (arith, wait_core-blocked id curr delay m.core e)

  -- Waiting for a semaphore without tokens, by a process other than the idle one, whose context is
  -- saved without a page fault that does not return: the kernel is then set up so that the process
  -- is the last of those that wait for the semaphore and of all that wait, some process is on the
  -- CPU, and a block in at most one place is in as many places as before. What is left is loading
  -- the context of the process on the CPU, and the result is no error.
  pub sem_pend-places :
      (id delay curr idle i : ℕ) (m m1 : Machine Mmu)
      → id < cfg.max_sem
      → (m.core.sem_manager.sems id).ctr ≡ 0
      → m.core.scheduler.pcb_curr ≡ some curr
      → m.core.scheduler.idle_pcb ≡ some idle
      → idle ≢ curr
      → places i m.core.scheduler ≤ 1
      → save_context (record m { core = blocked id curr delay m.core }) ≡ some (tt, m1)
      → (c : Core) × (sem_pend cfg id delay m
          ≡ (reload_context >> pure Err.no_err) (record m1 { core = c }))
        × (places i c.scheduler ≡ places i m.core.scheduler)
        × (c.scheduler.waiting_list ≡ m.core.scheduler.waiting_list ++ curr ∷ [])
        × ((c.sem_manager.sems id).waiting_list
            ≡ (m.core.sem_manager.sems id).waiting_list ++ curr ∷ [])
        × (c.scheduler.pcb_curr ≢ none)
  sem_pend-places id delay curr idle i m m1 lt none_left q e ne h saved =
      let m0 = record m { core = blocked id curr delay m.core } in
      let kept = save_context-IsSwitched m0 m1 saved in
      let same = kept.same_scheduler in
      let (c, ran, placed, waits, same_sems, on) =
        park-places cfg.ticks_per_sched curr idle i m1.core (ap (λ s. s.pcb_curr) same ∙ q)
          (ap (λ s. s.idle_pcb) same ∙ e) ne (subst (λ s. places i s ≤ 1) (sym same) h) in
      (
        c,
        sem_pend-switch id delay curr m lt none_left q
            ∙ (bind-some save_context _ saved
                ∙ bind-some (try_core (park cfg.ticks_per_sched curr)) _
                    (try_core-some (park cfg.ticks_per_sched curr) m1 ran)),
        placed ∙ ap (places i) same,
        waits ∙ ap (λ s. s.waiting_list ++ curr ∷ []) same,
        ap (λ sm. (sm.sems id).waiting_list) (same_sems ∙ kept.same_sems) ∙ ground arith,
        on,
      )
