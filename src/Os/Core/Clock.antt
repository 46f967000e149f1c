-- ===== src/Os/Core/Clock.antt =====
-- os/oscore/OSCore.cpp: a tick of the clock, from the timers to the choice of the next process.
use ferry_os.Prelude.{
  ℕ, ◌+◌, ◌%◌, ◌⊎◌, inl, inr, ◌≤◌, ◌<◌, ◌≡◌, refl, sym, ap, ◌∙◌, subst, true, none, some, List, [],
  ◌∷◌, arith, ◌==◌, if◌then◌else◌, ◌≢◌,
}
use mathlib.Core.Path.{ap₂}
use ferry_os.Prelude.Words.{u32}
use ferry_os.Prelude.Count.{times, times-append}
use ferry_os.Config.{Config}
use ferry_os.Machine.{Core}
use ferry_os.Os.Pcb.{Store, update, dec_delay}
use ferry_os.Os.Scheduler.{caculate_delay, to_swap_out_curr}
use ferry_os.Os.Scheduler.Queue.{places, sched-places}
use ferry_os.Os.Scheduler.Timer.{IsDistinct, expiring, staying, caculate_delay_lem}
use ferry_os.Os.Core.{run_sched, tick_timers, measure_load, preempt, time_tick, with_pcbs}
use ferry_os.Os.Core.Process.{run_sched-some}

times-split :
    (st : Store) (i : ℕ) (q : List ℕ) → times i (staying st q) + times i (expiring st q) ≡ times i q
times-split st i [] = refl
times-split st i (x ∷ q) = ground (arith, times-split st i q)

tick_timers-places :
    (i : ℕ) (c : Core)
    → IsDistinct c.scheduler.waiting_list
    → places i (tick_timers c).scheduler ≡ places i c.scheduler
unfolding tick_timers places caculate_delay
tick_timers-places i c d =
    let ss = c.sem_manager.sems in
    let (waits, ready, curr, _) = caculate_delay_lem c.scheduler c.pcb_manager.pcbs ss i d in
    ground (
      arith,
      ap (λ q. times i q) waits,
      ap (λ q. times i q) ready,
      times-append i c.scheduler.ready_list (expiring c.pcb_manager.pcbs c.scheduler.waiting_list),
      times-split c.pcb_manager.pcbs i c.scheduler.waiting_list,
    )

-- The kernel of `timeTick` before its timers.
abbrev counted : Config → Core → Core
counted cfg c =
    let d = record c { time = u32 (c.time + 1) } in
    if d.time % cfg.ticks_per_sec == 0 then measure_load cfg d else d

counted_lem :
    (cfg : Config) (c : Core)
    → ((counted cfg c).scheduler ≡ c.scheduler)
      × ((counted cfg c).pcb_manager ≡ c.pcb_manager)
      × ((counted cfg c).sem_manager ≡ c.sem_manager)
      × ((counted cfg c).time ≡ u32 (c.time + 1))
unfolding measure_load
counted_lem cfg c = ground arith

time_tick-counted :
    (cfg : Config) (c : Core)
    → c.is_running ≡ true
    → cfg.ticks_per_sec ≢ 0
    → time_tick cfg c ≡ preempt cfg (tick_timers (counted cfg c))
unfolding time_tick
time_tick-counted cfg c r n = ground arith

-- The kernel with what the process on the CPU has used of its time.
abbrev used : ℕ → Core → Core
used curr c = with_pcbs c.scheduler (update dec_delay curr c.pcb_manager.pcbs) c

preempt-expired :
    (cfg : Config) (curr : ℕ) (c : Core)
    → c.scheduler.pcb_curr ≡ some curr
    → (c.pcb_manager.pcbs curr).delay ≤ 1
    → preempt cfg c ≡ run_sched cfg.ticks_per_sched (used curr c)
unfolding preempt to_swap_out_curr dec_delay
preempt-expired cfg curr c q e = ground arith

preempt-running :
    (cfg : Config) (curr : ℕ) (c : Core)
    → c.scheduler.pcb_curr ≡ some curr
    → 1 < (c.pcb_manager.pcbs curr).delay
    → preempt cfg c ≡ some (used curr c)
unfolding preempt to_swap_out_curr dec_delay
preempt-running cfg curr c q e = ground arith

used_up_or_not : (n : ℕ) → (n ≤ 1) ⊎ (1 < n)
used_up_or_not n = omega arith

-- `preempt` keeps every block in its number of places.
preempt-places :
    (cfg : Config) (curr idle i : ℕ) (c : Core)
    → c.scheduler.pcb_curr ≡ some curr
    → c.scheduler.idle_pcb ≡ some idle
    → places i c.scheduler ≤ 1
    → (d : Core) × (preempt cfg c ≡ some d)
      × (places i d.scheduler ≡ places i c.scheduler)
      × (d.scheduler.waiting_list ≡ c.scheduler.waiting_list)
      × (d.scheduler.pcb_curr ≢ none)
      × (d.time ≡ c.time)
preempt-places cfg curr idle i c q e h = elim (used_up_or_not (c.pcb_manager.pcbs curr).delay) [
  | inl le ↦
      (let (r, ran, placed, _, waits, on) =
          sched-places cfg.ticks_per_sched i idle c.scheduler (used curr c).pcb_manager.pcbs e h in
        (
          with_pcbs r.0 r.1 (used curr c),
          preempt-expired cfg curr c q le ∙ run_sched-some cfg.ticks_per_sched (used curr c) r ran,
          placed,
          waits,
          on,
          refl,
        ))
  | inr lt ↦ (used curr c, preempt-running cfg curr c q lt, refl, refl, λ n. cc, refl)
]

-- A tick of the running kernel always succeeds, counts the time, leaves a block that is in at
-- most one place in as many places as before and some process on the CPU; the processes whose delay
-- runs out, and only they, leave the waiting queue. An idle process must be set, some process be on
-- the CPU, no block wait twice and the clock have a rate.
pub time_tick-places :
    (cfg : Config) (curr idle i : ℕ) (c : Core)
    → c.is_running ≡ true
    → cfg.ticks_per_sec ≢ 0
    → c.scheduler.pcb_curr ≡ some curr
    → c.scheduler.idle_pcb ≡ some idle
    → IsDistinct c.scheduler.waiting_list
    → places i c.scheduler ≤ 1
    → (d : Core) × (time_tick cfg c ≡ some d)
      × (d.time ≡ u32 (c.time + 1))
      × (places i d.scheduler ≡ places i c.scheduler)
      × (d.scheduler.waiting_list ≡ staying c.pcb_manager.pcbs c.scheduler.waiting_list)
      × (d.scheduler.pcb_curr ≢ none)
unfolding tick_timers caculate_delay
time_tick-places cfg curr idle i c r n q e d h =
    let (same_s, same_pm, same_sm, timed) = counted_lem cfg c in
    let d0 = subst (λ s. IsDistinct s.waiting_list) (sym same_s) d in
    let kept = tick_timers-places i (counted cfg c) d0 ∙ ap (places i) same_s in
    let waits =
      (caculate_delay_lem (counted cfg c).scheduler (counted cfg c).pcb_manager.pcbs
        (counted cfg c).sem_manager.sems i d0).0 in
    let on_cpu =
      (caculate_delay_lem (counted cfg c).scheduler (counted cfg c).pcb_manager.pcbs
        (counted cfg c).sem_manager.sems i d0).2 in
    let (m, done, placed, waits', on, time') =
      preempt-places cfg curr idle i (tick_timers (counted cfg c))
        (on_cpu ∙ (ap (λ s. s.pcb_curr) same_s ∙ q)) (ap (λ s. s.idle_pcb) same_s ∙ e)
        (omega (arith, kept, h)) in
    (
      m,
      time_tick-counted cfg c r n ∙ done,
      time' ∙ timed,
      placed ∙ kept,
      waits' ∙ (waits ∙ ap₂ (λ s pm. staying pm.pcbs s.waiting_list) same_s same_pm),
      on,
    )
