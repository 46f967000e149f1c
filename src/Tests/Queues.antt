-- ===== src/Tests/Queues.antt =====
-- The scheduler and the kernel's operations on its queues at concrete inputs.
use ferry_os.Prelude.{ℕ, ◌+◌, ◌≤◌, ◌≡◌, ◌≢◌, refl, false, none, some, [], ◌∷◌, arith}
use ferry_os.Prelude.Words.{u32}
use ferry_os.Prelude.Count.{times}
use ferry_os.Machine.{Core}
use ferry_os.Os.Pcb.{Store}
use ferry_os.Os.Sem.{unblock}
use ferry_os.Os.PcbManager.{Err}
use ferry_os.Os.PcbManager.Laws
use ferry_os.Os.Scheduler.{Scheduler, sched, caculate_delay}
use ferry_os.Os.Scheduler.Queue.{places, sched-places}
use ferry_os.Os.Scheduler.RoundRobin.{run_scheds, run_scheds-turn}
use ferry_os.Os.Scheduler.Timer.{tick_pcb, caculate_delay_lem}
use ferry_os.Os.Core.{delete_other, time_tick, sem_post}
use ferry_os.Os.Core.Process.{delete_other-ready}
use ferry_os.Os.Core.Semaphore.{HasOwnPid, sem_post-wakes}
use ferry_os.Os.Core.Clock.{time_tick-places}
use ferry_os.Tests.Data.{blocks, queues, kernel, managed-IsConsistent, sems, config}

pub once : places 2 queues ≤ 1
unfolding places
once = omega arith

sched-places_example :
    (r : Scheduler × Store) × (sched 5 queues blocks ≡ some r)
    × (places 2 r.0 ≡ places 2 queues)
    × (r.0.idle_pcb ≡ some 0)
    × (r.0.waiting_list ≡ queues.waiting_list)
    × (r.0.pcb_curr ≢ none)
sched-places_example = sched-places 5 2 0 queues blocks refl once

run_scheds-turn_example :
    (r : Scheduler × Store) × (run_scheds 1 5 queues blocks ≡ some r) × (r.0.pcb_curr ≡ some 2)
run_scheds-turn_example = run_scheds-turn 0 5 0 2 queues blocks refl refl

caculate_delay_lem_example :
    let (s', st', _) = caculate_delay queues blocks sems in
    (s'.waiting_list ≡ [])
    × (s'.ready_list ≡ 2 ∷ 3 ∷ [])
    × (s'.pcb_curr ≡ some 1)
    × (st' 3 ≡ tick_pcb (blocks 3))
caculate_delay_lem_example = caculate_delay_lem queues blocks sems 3 (refl, tt)

own_pid : (i : ℕ) → HasOwnPid blocks i
own_pid i j e = omega (arith, pid j, pid i, e)
  where
    pid : (k : ℕ) → (blocks k).pid ≡ k + 1
    pid k = ground arith

delete_other-ready_example :
    let d = delete_other 3 2 kernel in
    (places 2 d.scheduler ≡ 0)
    × (d.pcb_manager.created 2 ≡ false)
    × Laws.IsConsistent 5 d.pcb_manager
delete_other-ready_example =
    delete_other-ready 5 2 kernel managed-IsConsistent (omega arith) refl (omega arith) refl
      (own_pid 2) (omega arith) once

time_tick-places_example :
    (d : Core) × (time_tick config kernel ≡ some d)
    × (d.time ≡ u32 8)
    × (places 2 d.scheduler ≡ places 2 queues)
    × (d.scheduler.waiting_list ≡ [])
    × (d.scheduler.pcb_curr ≢ none)
time_tick-places_example =
    time_tick-places config 1 0 2 kernel refl (omega arith) refl refl (refl, tt) once

sem_post-wakes_example :
    let (d, err) = sem_post config 1 kernel in
    (err ≡ Err.no_err)
    × (d.scheduler.ready_list ≡ 2 ∷ 3 ∷ [])
    × (times 3 d.scheduler.ready_list + times 3 d.scheduler.waiting_list ≡ 1)
    × ((d.sem_manager.sems 1).waiting_list ≡ [])
    × ((d.sem_manager.sems 1).ctr ≡ 0)
    × (d.pcb_manager.pcbs 3 ≡ unblock (blocks 3))
sem_post-wakes_example =
    sem_post-wakes config 1 3 3 [] kernel (omega arith) refl (own_pid 3) (omega arith)
