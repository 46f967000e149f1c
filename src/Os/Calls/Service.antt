-- ===== src/Os/Calls/Service.antt =====
-- os/oscore/OSCore.cpp: the service of interrupts, with the switch of the context around it.
use ferry_os.Prelude.{
  ℕ, ◌+◌, ◌≤◌, ◌≡◌, refl, sym, ap, subst, ◌∙◌, Bool, true, false, Option, none, some, ◌≢◌, ◌==◌,
  if◌then◌else◌,
}
use ferry_os.Prelude.Words.{u32}
use ferry_os.Config.{Config}
use ferry_os.Device.Mmu.State.{Mmu}
use ferry_os.Machine.{Machine, Core, pure, bind-some}
use ferry_os.Device.Processor.Stack.{save_context, reload_context}
use ferry_os.Device.Processor.Stack.Frame.{save_context-IsSwitched}
use ferry_os.Os.Core.{time_tick}
use ferry_os.Os.Core.Clock.{time_tick-places}
use ferry_os.Os.Scheduler.Queue.{places}
use ferry_os.Os.Scheduler.Timer.{IsDistinct}
use ferry_os.Os.Calls.{call_int_service, try_core}

pub some_of : {A : Type 0} (x : Option A) → x ≢ none → (a : A) × (x ≡ some a)
some_of none h = absurd (h refl)
some_of (some a) h = (a, refl)

pub try_core-some :
    {S : Type 0} (f : Core → Option Core) {c : Core} (m : Machine S)
    → f m.core ≡ some c
    → try_core f m ≡ some (tt, record m { core = c })
try_core-some {S = S} f m e =
    ap
      (λ o. elim o as (λ _. Option (Unit {0} × Machine S)) [
        | none ↦ none
        | some c ↦ some (tt, record m { core = c })
      ])
      e

-- The kernel with a process on the CPU, an idle process and a clock, where no block is queued twice.
pub record IsUp (cfg : Config) (curr idle : ℕ) (c : Core) : Type 0 where
  pub running : c.is_running ≡ true
  pub clocked : cfg.ticks_per_sec ≢ 0
  pub on_cpu : c.scheduler.pcb_curr ≡ some curr
  pub has_idle : c.scheduler.idle_pcb ≡ some idle
  pub once : IsDistinct c.scheduler.waiting_list

-- What the service itself does, between the switches.
none-some : {A : Type 0} {a : A} → none ≢ some a
none-some e = cc

served :
    {S : Type 0} (cfg : Config) (is_clock : Bool) (curr idle i : ℕ) (m : Machine S)
    → IsUp cfg curr idle m.core
    → places i m.core.scheduler ≤ 1
    → (c : Core) × ((if is_clock then try_core (time_tick cfg) else pure tt) m
        ≡ some (tt, record m { core = c }))
      × (places i c.scheduler ≡ places i m.core.scheduler)
      × (c.scheduler.pcb_curr ≢ none)
      × (c.time ≡ (if is_clock then u32 (m.core.time + 1) else m.core.time))
served cfg true curr idle i m up h =
    let (c, done, timed, placed, _, on) =
      time_tick-places cfg curr idle i m.core up.running up.clocked up.on_cpu up.has_idle up.once
        h in
    (c, try_core-some (time_tick cfg) m done, placed, on, timed)
served cfg false curr idle i m up h = (m.core, refl, refl, λ n. none-some (sym n ∙ up.on_cpu), refl)

-- The service of any interrupt on a kernel that is up, when the context of the running process is
-- saved without a page fault that does not return: the kernel is then set up with every block that
-- is in at most one place in as many places as before, with some process on the CPU, and with the
-- time counted for interrupt 0 alone. What is left is loading the context of the process on the CPU.
pub call_int_service-places :
    (cfg : Config) (int_num curr idle i : ℕ) (m m1 : Machine Mmu)
    → IsUp cfg curr idle m.core
    → places i m.core.scheduler ≤ 1
    → save_context m ≡ some (tt, m1)
    → (c : Core) × (call_int_service cfg int_num m ≡ reload_context (record m1 { core = c }))
      × (places i c.scheduler ≡ places i m.core.scheduler)
      × (c.scheduler.pcb_curr ≢ none)
      × (c.time ≡ (if int_num == 0 then u32 (m.core.time + 1) else m.core.time))
unfolding call_int_service
call_int_service-places cfg int_num curr idle i m m1 up h saved =
    let kept = save_context-IsSwitched m m1 saved in
    let same = kept.same_scheduler in
    let (c, done, placed, on, timed) =
      served cfg (int_num == 0) curr idle i m1
        (record {
          running = kept.same_running ∙ up.running;
          clocked = up.clocked;
          on_cpu = ap (λ s. s.pcb_curr) same ∙ up.on_cpu;
          has_idle = ap (λ s. s.idle_pcb) same ∙ up.has_idle;
          once = subst (λ s. IsDistinct s.waiting_list) (sym same) up.once;
        })
        (subst (λ s. places i s ≤ 1) (sym same) h) in
    (
      c,
      bind-some save_context _ saved
          ∙ bind-some (if int_num == 0 then try_core (time_tick cfg) else pure tt) _ done,
      placed ∙ ap (places i) same,
      on,
      timed ∙ ap (λ t. if int_num == 0 then u32 (t + 1) else t) kept.same_time,
    )
