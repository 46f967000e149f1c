-- ===== src/Os/Calls/Quit.antt =====
-- os/oscore/OSCore.cpp: a process that quits.
use ferry_os.Prelude.{ℕ, ◌≤◌, ◌<◌, ◌≡◌, ap, ◌∙◌, true, false, Option, none, some, ◌≢◌, arith}
use ferry_os.Config.{Config}
use ferry_os.Device.Mmu.State.{Mmu}
use ferry_os.Machine.{Machine, Core, M, pure, ◌>>◌, bind-some}
use ferry_os.Device.Processor.Stack.{reload_context}
use ferry_os.Os.Pcb.{Store}
use ferry_os.Os.PcbManager.{PcbManager, Err, return_pcb}
use ferry_os.Os.PcbManager.Laws
use ferry_os.Os.PcbManager.Laws.{return_pcb-IsConsistent}
use ferry_os.Os.Scheduler.{Scheduler, sched, remove_running}
use ferry_os.Os.Scheduler.Queue.{places, sched-places}
use ferry_os.Os.Core.{drop_running, with_pcbs, with_scheduler}
use ferry_os.Os.Core.Process.{run_sched-some}
use ferry_os.Os.Calls.Service.{try_core-some}
use ferry_os.Os.Calls.{process_quit, try_core}

sched-pids :
    (ticks j : ℕ) (s : Scheduler) (st : Store) (r : Scheduler × Store)
    → sched ticks s st ≡ some r
    → (r.1 j).pid ≡ (st j).pid
unfolding sched
sched-pids ticks j s st r e = ground arith

removed-places :
    (curr idle : ℕ) (s : Scheduler)
    → s.pcb_curr ≡ some curr
    → s.idle_pcb ≡ some idle
    → idle ≢ curr
    → places curr s ≤ 1
    → places curr (remove_running s).0 ≡ 0
unfolding places remove_running
removed-places curr idle s q e ne h = ground arith

with_pids :
    (n : ℕ) (m : PcbManager) (st : Store)
    → ((j : ℕ) → (st j).pid ≡ (m.pcbs j).pid)
    → Laws.IsConsistent n m
    → Laws.IsConsistent n (record m { pcbs = st })
with_pids n m st same h = record {
  word = h.word;
  counted = h.counted;
  free_once = h.free_once;
  in_range = h.in_range;
  pids = λ i lt. same i ∙ h.pids i lt;
}

drop_running-frees :
    (ticks n curr idle : ℕ) (c : Core)
    → Laws.IsConsistent n c.pcb_manager
    → curr < n
    → c.pcb_manager.created curr ≡ true
    → 0 < c.pcb_manager.proc_ctr
    → c.scheduler.pcb_curr ≡ some curr
    → c.scheduler.idle_pcb ≡ some idle
    → idle ≢ curr
    → places curr c.scheduler ≤ 1
    → (d : Core) × (drop_running ticks curr c ≡ some d)
      × (places curr d.scheduler ≡ 0)
      × (d.pcb_manager.created curr ≡ false)
      × Laws.IsConsistent n d.pcb_manager
      × (d.scheduler.pcb_curr ≢ none)
unfolding drop_running remove_running
drop_running-frees ticks n curr idle c h lt made pos q e ne one =
    let gone = removed-places curr idle c.scheduler q e ne one in
    let c1 = with_scheduler (λ s. (remove_running s).0) c in
    let (r, ran, placed, _, _, on) =
      sched-places ticks curr idle c1.scheduler c.pcb_manager.pcbs e (omega (arith, gone)) in
    let d = with_pcbs r.0 r.1 c1 in
    let kept =
      with_pids n c.pcb_manager r.1 (λ j. sched-pids ticks j c1.scheduler c.pcb_manager.pcbs r ran)
        h in
    let (good, free) = return_pcb-IsConsistent n curr d.pcb_manager kept lt made pos in
    (
      record d { pcb_manager = return_pcb curr d.pcb_manager },
      ap
          (λ o. elim o as (λ _. Option Core) [
            | none ↦ none
            | some d' ↦ some (record d' { pcb_manager = return_pcb curr d'.pcb_manager })
          ])
          (run_sched-some ticks c1 r ran),
      placed ∙ gone,
      free,
      good,
      on,
    )

module _ (cfg : Config) where
  abbrev leave : ℕ → M Mmu Err
  leave curr = do try_core (drop_running cfg.ticks_per_sched curr); reload_context; pure Err.no_err

  process_quit-leave :
      (curr : ℕ) (m : Machine Mmu)
      → m.core.scheduler.pcb_curr ≡ some curr
      → process_quit cfg m ≡ leave curr m
  unfolding process_quit
  process_quit-leave curr m q = ground arith

  -- A process other than the idle one quits: the kernel is then set up so that its block is in no
  -- place and free to be used again, some process is on the CPU, and the process manager stays
  -- consistent. What is left is loading the context of the process on the CPU, and the result is no
  -- error. The block must be created and counted and stand in no other place.
  pub process_quit-frees :
      (curr idle : ℕ) (m : Machine Mmu)
      → Laws.IsConsistent cfg.maximum_tasks m.core.pcb_manager
      → curr < cfg.maximum_tasks
      → m.core.pcb_manager.created curr ≡ true
      → 0 < m.core.pcb_manager.proc_ctr
      → m.core.scheduler.pcb_curr ≡ some curr
      → m.core.scheduler.idle_pcb ≡ some idle
      → idle ≢ curr
      → places curr m.core.scheduler ≤ 1
      → (c : Core) × (process_quit cfg m
          ≡ (reload_context >> pure Err.no_err) (record m { core = c }))
        × (places curr c.scheduler ≡ 0)
        × (c.pcb_manager.created curr ≡ false)
        × Laws.IsConsistent cfg.maximum_tasks c.pcb_manager
        × (c.scheduler.pcb_curr ≢ none)
  process_quit-frees curr idle m h lt made pos q e ne one =
      let (c, dropped, out, free, good, on) =
        drop_running-frees cfg.ticks_per_sched cfg.maximum_tasks curr idle m.core h lt made pos q e
          ne one in
      (
        c,
        process_quit-leave curr m q
            ∙ bind-some (try_core (drop_running cfg.ticks_per_sched curr)) _
                (try_core-some (drop_running cfg.ticks_per_sched curr) m dropped),
        out,
        free,
        good,
        on,
      )
