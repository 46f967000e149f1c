-- ===== src/Os/Calls/Delay.antt =====
-- os/oscore/OSCore.cpp: pausing the running process.
use ferry_os.Prelude.{ℕ, ◌≤◌, ◌≡◌, ap, subst, sym, ◌∙◌, none, some, [], ◌∷◌, ◌++◌, ◌≢◌}
use ferry_os.Config.{Config}
use ferry_os.Device.Mmu.State.{Mmu}
use ferry_os.Machine.{curr_pcb-some, curr_pcb, bind-some, Machine, Core, pure, ◌>>◌, with_pcb}
use ferry_os.Device.Processor.Stack.{save_context, reload_context}
use ferry_os.Device.Processor.Stack.Frame.{save_context-IsSwitched}
use ferry_os.Os.Pcb.{State, set_state, set_delay}
use ferry_os.Os.PcbManager.{Err}
use ferry_os.Os.Core.{park}
use ferry_os.Os.Core.Process.{park-places}
use ferry_os.Os.Scheduler.Queue.{places}
use ferry_os.Os.Calls.Service.{try_core-some}
use ferry_os.Os.Calls.{try_core, process_delay}

module _ (cfg : Config) where
  -- The block of a process that pauses.
  abbrev pub paused : ℕ → ℕ → Machine Mmu → Machine Mmu
  paused delay curr m = record m {
    core = with_pcb (λ p. set_state State.suspend (set_delay delay p)) curr m.core;
  }

  -- Pausing a process other than the idle one, whose context is saved without a page fault that
  -- does not return: the kernel is then set up so that the process is at the end of the waiting
  -- queue, some process is on the CPU, and a block that is in at most one place is in as many places
  -- as before. What is left is loading the context of the process on the CPU, and the result is no
  -- error.
  pub process_delay-places :
      (delay curr idle i : ℕ) (m m1 : Machine Mmu)
      → m.core.scheduler.pcb_curr ≡ some curr
      → m.core.scheduler.idle_pcb ≡ some idle
      → idle ≢ curr
      → places i m.core.scheduler ≤ 1
      → save_context (paused delay curr m) ≡ some (tt, m1)
      → (c : Core) × (process_delay cfg delay m
          ≡ (reload_context >> pure Err.no_err) (record m1 { core = c }))
        × (places i c.scheduler ≡ places i m.core.scheduler)
        × (c.scheduler.waiting_list ≡ m.core.scheduler.waiting_list ++ curr ∷ [])
        × (c.scheduler.pcb_curr ≢ none)
  unfolding process_delay
  process_delay-places delay curr idle i m m1 q e ne h saved =
      let same = (save_context-IsSwitched (paused delay curr m) m1 saved).same_scheduler in
      let (c, ran, placed, waits, _, on) =
        park-places cfg.ticks_per_sched curr idle i m1.core (ap (λ s. s.pcb_curr) same ∙ q)
          (ap (λ s. s.idle_pcb) same ∙ e) ne (subst (λ s. places i s ≤ 1) (sym same) h) in
      (
        c,
        bind-some curr_pcb _ (curr_pcb-some q)
            ∙ (bind-some save_context _ saved
                ∙ bind-some (try_core (park cfg.ticks_per_sched curr)) _
                    (try_core-some (park cfg.ticks_per_sched curr) m1 ran)),
        placed ∙ ap (places i) same,
        waits ∙ ap (λ s. s.waiting_list ++ curr ∷ []) same,
        on,
      )
