-- ===== src/Os/Core/Process.antt =====
-- os/oscore/OSCore.cpp: what parking and deleting a process does to the queues and the free list.
use ferry_os.Prelude.{
  ℕ, ◌≤◌, ◌<◌, ◌≡◌, refl, sym, ap, ◌∙◌, subst, true, false, Option, none, some, List, [], ◌∷◌, ◌++◌,
  arith, ltb, ◌≢◌,
}
use ferry_os.Prelude.Count.{times, times-append, times-snoc}
use ferry_os.Machine.{Core}
use ferry_os.Os.Pcb.{Pcb, State, Store}
use ferry_os.Os.PcbManager.{return_pcb}
use ferry_os.Os.PcbManager.Laws
use ferry_os.Os.PcbManager.Laws.{return_pcb-IsConsistent}
use ferry_os.Os.Scheduler.{
  Scheduler, sched, time_out, add_waiting_pcb, remove_running, remove_from_ready_list,
  remove_from_waiting_list,
}
use ferry_os.Os.Scheduler.Queue.{places, sched-places}
use ferry_os.Os.Scheduler.Timer.{IsDistinct, expiring, tick_pcb, caculate_delay_lem}
use ferry_os.Os.Core.{with_pcbs, run_sched, park, delete_other, tick_timers, with_scheduler}
use ferry_os.Os.Core.Semaphore.{HasOwnPid, times-remove_pid}

abbrev parked : ℕ → Scheduler → Scheduler
parked pcb s = add_waiting_pcb pcb (remove_running s).0

parked-places :
    (pcb idle i : ℕ) (s : Scheduler)
    → s.pcb_curr ≡ some pcb
    → s.idle_pcb ≡ some idle
    → idle ≢ pcb
    → places i (parked pcb s) ≡ places i s
unfolding places add_waiting_pcb remove_running
parked-places pcb idle i s q e ne = ground (arith, times-snoc i s.waiting_list pcb)

pub run_sched-some :
    (ticks : ℕ) (c : Core) (r : Scheduler × Store)
    → sched ticks c.scheduler c.pcb_manager.pcbs ≡ some r
    → run_sched ticks c ≡ some (with_pcbs r.0 r.1 c)
unfolding run_sched
run_sched-some ticks c r e =
    ap (λ o. elim o as (λ _. Option Core) [ none ↦ none | some (s, st) ↦ some (with_pcbs s st c) ])
      e

-- A process other than the idle one that waits gives up the CPU for the end of the waiting queue,
-- and some process runs after it; a block in at most one place is in as many places as before.
pub park-places :
    (ticks pcb idle i : ℕ) (c : Core)
    → c.scheduler.pcb_curr ≡ some pcb
    → c.scheduler.idle_pcb ≡ some idle
    → idle ≢ pcb
    → places i c.scheduler ≤ 1
    → (d : Core) × (park ticks pcb c ≡ some d)
      × (places i d.scheduler ≡ places i c.scheduler)
      × (d.scheduler.waiting_list ≡ c.scheduler.waiting_list ++ pcb ∷ [])
      × (d.sem_manager ≡ c.sem_manager)
      × (d.scheduler.pcb_curr ≢ none)
unfolding park add_waiting_pcb remove_running
park-places ticks pcb idle i c q e ne h =
    let same_places = parked-places pcb idle i c.scheduler q e ne in
    let (r, ran, placed, idle', waits, on) =
      sched-places ticks i idle (parked pcb c.scheduler) c.pcb_manager.pcbs e
        (omega (arith, same_places, h)) in
    (
      with_pcbs r.0 r.1 c,
      run_sched-some ticks (with_scheduler (parked pcb) c) r ran,
      placed ∙ same_places,
      waits,
      refl,
      on,
    )

delete_ready :
    (pid i : ℕ) (c : Core)
    → (c.pcb_manager.pcbs i).state ≡ State.ready
    → delete_other pid i c ≡ record c {
      scheduler = remove_from_ready_list c.pcb_manager.pcbs pid c.scheduler;
      pcb_manager = return_pcb i c.pcb_manager;
    }
unfolding delete_other
delete_ready pid i c st = rw st refl

delete_swapped :
    (pid i : ℕ) (c : Core)
    → (c.pcb_manager.pcbs i).state ≡ State.swapped_ready
    → ((delete_other pid i c).scheduler
        ≡ remove_from_waiting_list c.pcb_manager.pcbs pid c.scheduler)
      × ((delete_other pid i c).pcb_manager ≡ return_pcb i c.pcb_manager)
unfolding delete_other
delete_swapped pid i c st = (rw st refl, rw st refl)

removed-places :
    (st : Store) (i : ℕ) (s : Scheduler)
    → HasOwnPid st i
    → 0 < times i s.ready_list
    → places i s ≤ 1
    → places i (remove_from_ready_list st (st i).pid s) ≡ 0
unfolding places remove_from_ready_list
removed-places st i s own r one = ground (arith, times-remove_pid st i i s.ready_list own, r, one)

-- Deleting a ready process takes its block out of the ready queue and gives it back: the block is
-- in no place and free, and the process manager stays consistent. The block must be created and
-- counted, have a pid of its own and stand in no other place.
pub delete_other-ready :
    (n i : ℕ) (c : Core)
    → Laws.IsConsistent n c.pcb_manager
    → i < n
    → c.pcb_manager.created i ≡ true
    → 0 < c.pcb_manager.proc_ctr
    → (c.pcb_manager.pcbs i).state ≡ State.ready
    → HasOwnPid c.pcb_manager.pcbs i
    → 0 < times i c.scheduler.ready_list
    → places i c.scheduler ≤ 1
    → let d = delete_other (c.pcb_manager.pcbs i).pid i c in
      (places i d.scheduler ≡ 0)
      × (d.pcb_manager.created i ≡ false)
      × Laws.IsConsistent n d.pcb_manager
delete_other-ready n i c h lt e p st own r one =
    let (good, free) = return_pcb-IsConsistent n i c.pcb_manager h lt e p in
    let same_core = delete_ready (c.pcb_manager.pcbs i).pid i c st in
    (
      ap (λ d. places i d.scheduler) same_core
          ∙ removed-places c.pcb_manager.pcbs i c.scheduler own r one,
      ap (λ d. d.pcb_manager.created i) same_core ∙ free,
      subst (λ d. Laws.IsConsistent n d.pcb_manager) (sym same_core) good,
    )

tick_pcb-paused :
    (p : Pcb)
    → p.state ≡ State.suspend
    → p.delay ≡ 1
    → ((tick_pcb p).state ≡ State.swapped_ready) × ((tick_pcb p).is_time_out ≡ true)
unfolding time_out
tick_pcb-paused p s e = (ground arith, ground arith)

lt-ltb : {n : ℕ} → 0 < n → ltb 0 n ≡ true
lt-ltb h = ground (arith, h)

times-expiring :
    (st : Store) (i : ℕ) (q : List ℕ) → (st i).delay ≡ 1 → times i (expiring st q) ≡ times i q
times-expiring st i [] e = refl
times-expiring st i (x ∷ q) e = ground (arith, times-expiring st i q e)

-- A process that paused, waits once and has one tick of its delay left is made ready by the tick
-- with the state of a swapped process and as timed out. Deleting it then leaves its block in the
-- ready queue and puts it into the free list as well.
pub delete_other-paused :
    (i : ℕ) (c : Core)
    → IsDistinct c.scheduler.waiting_list
    → (c.pcb_manager.pcbs i).state ≡ State.suspend
    → (c.pcb_manager.pcbs i).delay ≡ 1
    → 0 < times i c.scheduler.waiting_list
    → let d = tick_timers c in
      let e = delete_other (d.pcb_manager.pcbs i).pid i d in
      ((d.pcb_manager.pcbs i).state ≡ State.swapped_ready)
      × ((d.pcb_manager.pcbs i).is_time_out ≡ true)
      × (0 < times i e.scheduler.ready_list)
      × (0 < times i e.pcb_manager.free_list)
unfolding tick_timers return_pcb remove_from_waiting_list
delete_other-paused i c d s e w = (
  swapped,
  ap (λ p. p.is_time_out) woken ∙ timed_out,
  ground (
    arith,
    ap (λ q. times i q.ready_list)
        (delete_swapped ((tick_timers c).pcb_manager.pcbs i).pid i (tick_timers c) swapped).0,
    in_ready,
  ),
  ground (
    arith,
    ap (λ m. times i m.free_list)
        (delete_swapped ((tick_timers c).pcb_manager.pcbs i).pid i (tick_timers c) swapped).1,
    times-snoc i c.pcb_manager.free_list i,
  ),
)
  where
    woken : (tick_timers c).pcb_manager.pcbs i ≡ tick_pcb (c.pcb_manager.pcbs i)
    woken =
        (caculate_delay_lem c.scheduler c.pcb_manager.pcbs c.sem_manager.sems i d).3
        ∙ rw (lt-ltb w) refl

    timed_out : (tick_pcb (c.pcb_manager.pcbs i)).is_time_out ≡ true
    timed_out = (tick_pcb-paused (c.pcb_manager.pcbs i) s e).1

    swapped : ((tick_timers c).pcb_manager.pcbs i).state ≡ State.swapped_ready
    swapped = ap (λ p. p.state) woken ∙ (tick_pcb-paused (c.pcb_manager.pcbs i) s e).0

    in_ready : 0 < times i (tick_timers c).scheduler.ready_list
    in_ready = omega (
      arith,
      w,
      ap (λ q. times i q)
          (caculate_delay_lem c.scheduler c.pcb_manager.pcbs c.sem_manager.sems i d).1,
      times-append i c.scheduler.ready_list (expiring c.pcb_manager.pcbs c.scheduler.waiting_list),
      times-expiring c.pcb_manager.pcbs i c.scheduler.waiting_list e,
    )
