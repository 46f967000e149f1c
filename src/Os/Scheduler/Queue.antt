-- ===== src/Os/Scheduler/Queue.antt =====
-- os/scheduler/OSScheduler.cpp: what one call of `sched` does to the queues, and round-robin order.
use ferry_os.Prelude.{
  ℕ, ◌+◌, ◌-◌, ◌≤◌, ◌≡◌, refl, Option, none, some, List, [], ◌∷◌, ◌++◌, ◌==◌, if◌then◌else◌, arith,
  ◌≢◌,
}
use native.Mathlib.Decide.{ℕ_discrete}
use ferry_os.Prelude.Count.{times, times-snoc}
use ferry_os.Os.Pcb.{set_state, set_delay, inc_switch_ctr, Pcb, State, Store, update}
use ferry_os.Os.Scheduler.{start_running, Scheduler, sched}

-- How often a block is placed: queued, on the CPU, or, for the idle block, at rest.
abbrev pub here : Option ℕ → ℕ → ℕ
here none i = 0
here (some c) i = if c == i then 1 else 0

abbrev pub at_rest : Option ℕ → Option ℕ → ℕ → ℕ
at_rest idle curr i = here idle i - here curr i

unfoldable pub places : ℕ → Scheduler → ℕ
places i s =
    times i s.ready_list
    + times i s.waiting_list
    + here s.pcb_curr i
    + at_rest s.idle_pcb s.pcb_curr i

-- The outcome of `sched`, by the ready queue and the process on the CPU.
pub sched-keep :
    (ticks c : ℕ) (s : Scheduler) (st : Store)
    → s.ready_list ≡ []
    → s.pcb_curr ≡ some c
    → sched ticks s st ≡ some (s, update (set_delay ticks) c st)
unfolding sched
sched-keep ticks c s st r q = ground arith

pub sched-idle :
    (ticks idle : ℕ) (s : Scheduler) (st : Store)
    → s.ready_list ≡ []
    → s.pcb_curr ≡ none
    → s.idle_pcb ≡ some idle
    → sched ticks s st
      ≡ some (record s { pcb_curr = some idle }, update (start_running ticks) idle st)
unfolding sched
sched-idle ticks idle s st r q e = ground arith

-- What the next process of the ready queue finds.
abbrev pub dispatched : ℕ → ℕ → List ℕ → Scheduler → Scheduler
dispatched ticks n ready s = record s {
  pcb_curr = some n;
  next_to_run = some n;
  ready_list = ready;
}

abbrev pub dispatch : ℕ → Pcb → Pcb
dispatch ticks p = inc_switch_ctr (start_running ticks p)

pub sched-first :
    (ticks n : ℕ) (rest : List ℕ) (s : Scheduler) (st : Store)
    → s.ready_list ≡ n ∷ rest
    → s.pcb_curr ≡ none
    → sched ticks s st ≡ some (dispatched ticks n rest s, update (dispatch ticks) n st)
unfolding sched
sched-first ticks n rest s st r q = ground arith

pub sched-from_idle :
    (ticks n c : ℕ) (rest : List ℕ) (s : Scheduler) (st : Store)
    → s.ready_list ≡ n ∷ rest
    → s.pcb_curr ≡ some c
    → s.idle_pcb ≡ some c
    → sched ticks s st
      ≡ some (
        dispatched ticks n rest s,
        update (dispatch ticks) n (update (set_state State.ready) c st),
      )
unfolding sched
sched-from_idle ticks n c rest s st r q e = ground arith

pub sched-rotate :
    (ticks n c idle : ℕ) (rest : List ℕ) (s : Scheduler) (st : Store)
    → s.ready_list ≡ n ∷ rest
    → s.pcb_curr ≡ some c
    → s.idle_pcb ≡ some idle
    → idle ≢ c
    → sched ticks s st
      ≡ some (
        dispatched ticks n (rest ++ c ∷ []) s,
        update (dispatch ticks) n (update (set_state State.ready) c st),
      )
unfolding sched
sched-rotate ticks n c idle rest s st r q e d = ground arith

-- With an idle process set, `sched` puts some process on the CPU and leaves a block that is in at
-- most one place in as many places as before; the waiting queue stays.
pub sched-places :
    (ticks i idle : ℕ) (s : Scheduler) (st : Store)
    → s.idle_pcb ≡ some idle
    → places i s ≤ 1
    → (r : Scheduler × Store) × (sched ticks s st ≡ some r)
      × (places i r.0 ≡ places i s)
      × (r.0.idle_pcb ≡ some idle)
      × (r.0.waiting_list ≡ s.waiting_list)
      × (r.0.pcb_curr ≢ none)
unfolding places
sched-places ticks i idle s st e h = go s.ready_list s.pcb_curr refl refl
  where
    go :
        (ready : List ℕ) (curr : Option ℕ)
        → s.ready_list ≡ ready
        → s.pcb_curr ≡ curr
        → (r : Scheduler × Store) × (sched ticks s st ≡ some r)
          × (places i r.0 ≡ places i s)
          × (r.0.idle_pcb ≡ some idle)
          × (r.0.waiting_list ≡ s.waiting_list)
          × (r.0.pcb_curr ≢ none)
    go [] (some c) r q = (_, sched-keep ticks c s st r q, refl, e, refl, cc)
    go [] none r q = (_, sched-idle ticks idle s st r q e, ground (arith, r, q, e), e, refl, cc)
    go (n ∷ rest) none r q =
        (_, sched-first ticks n rest s st r q, ground (arith, r, q, e, h), e, refl, cc)
    go (n ∷ rest) (some c) r q = elim (ℕ_discrete idle c) [
      | yes same_pcb ↦ (
        _,
        sched-from_idle ticks n c rest s st r q (rw (← same_pcb) e),
        ground (arith, r, q, e, h),
        e,
        refl,
        cc,
      )
      | no other ↦ (
        _,
        sched-rotate ticks n c idle rest s st r q e other,
        ground (arith, r, q, e, h, times-snoc i rest c),
        e,
        refl,
        cc,
      )
    ]
