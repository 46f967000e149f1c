-- ===== src/Os/Scheduler/RoundRobin.antt =====
-- os/scheduler/OSScheduler.cpp: every ready process gets its turn.
use ferry_os.Prelude.{
  ℕ, zero, suc, ◌+◌, ◌≡◌, refl, ◌∙◌, sym, Option, none, some, List, [], ◌∷◌, ◌++◌,
}
use ferry_os.Os.Pcb.{Store}
use native.Mathlib.Decide.{ℕ_discrete}
use mathlib.Core.List.{append-nil}
use native.Mathlib.Numerals.{add-one}
use ferry_os.Os.Scheduler.{Scheduler, sched}
use ferry_os.Os.Scheduler.Queue.{sched-first, sched-from_idle, sched-rotate}

abbrev pub get_elem? : List ℕ → ℕ → Option ℕ
get_elem? [] k = none
get_elem? (x ∷ xs) zero = some x
get_elem? (x ∷ xs) (suc k) = get_elem? xs k

get_elem?-append :
    (xs ys : List ℕ) (k : ℕ) {j : ℕ} → get_elem? xs k ≡ some j → get_elem? (xs ++ ys) k ≡ some j
get_elem?-append [] ys k e = cc
get_elem?-append (x ∷ xs) ys zero e = e
get_elem?-append (x ∷ xs) ys (suc k) e = get_elem?-append xs ys k e

-- A number of calls of `sched`, with nothing in between.
unfoldable pub run_scheds : ℕ → ℕ → Scheduler → Store → Option (Scheduler × Store)
run_scheds zero ticks s st = some (s, st)
run_scheds (suc n) ticks s st = elim (sched ticks s st) [
  | none ↦ none
  | some (s', st') ↦ run_scheds n ticks s' st'
]

-- The front of the queue runs, and the rest moves up.
sched-front :
    (ticks n idle : ℕ) (rest : List ℕ) (s : Scheduler) (st : Store)
    → s.ready_list ≡ n ∷ rest
    → s.idle_pcb ≡ some idle
    → (s' : Scheduler) × (st' : Store) × (back : List ℕ) × (sched ticks s st ≡ some (s', st'))
      × (s'.pcb_curr ≡ some n)
      × (s'.ready_list ≡ rest ++ back)
      × (s'.idle_pcb ≡ some idle)
sched-front ticks n idle rest s st r e = go s.pcb_curr refl
  where
    go :
        (curr : Option ℕ)
        → s.pcb_curr ≡ curr
        → (s' : Scheduler) × (st' : Store) × (back : List ℕ) × (sched ticks s st ≡ some (s', st'))
          × (s'.pcb_curr ≡ some n)
          × (s'.ready_list ≡ rest ++ back)
          × (s'.idle_pcb ≡ some idle)
    go none q = (_, _, [], sched-first ticks n rest s st r q, refl, sym (append-nil rest), e)
    go (some c) q = elim (ℕ_discrete idle c) [
      | yes same_pcb ↦ (
        _,
        _,
        [],
        sched-from_idle ticks n c rest s st r q (rw (← same_pcb) e),
        refl,
        sym (append-nil rest),
        e,
      )
      | no other ↦ (_, _, c ∷ [], sched-rotate ticks n c idle rest s st r q e other, refl, refl, e)
    ]

-- The process at place `k` of the ready queue is on the CPU after `k + 1` calls of `sched`.
pub run_scheds-turn :
    (k ticks idle j : ℕ) (s : Scheduler) (st : Store)
    → s.idle_pcb ≡ some idle
    → get_elem? s.ready_list k ≡ some j
    → (r : Scheduler × Store) × (run_scheds (k + 1) ticks s st ≡ some r) × (r.0.pcb_curr ≡ some j)
unfolding run_scheds
run_scheds-turn k ticks idle j s st e at = rw add-one (turn k s st s.ready_list e refl at)
  where
    turn :
        (k : ℕ) (s : Scheduler) (st : Store) (ready : List ℕ)
        → s.idle_pcb ≡ some idle
        → s.ready_list ≡ ready
        → get_elem? ready k ≡ some j
        → (r : Scheduler × Store) × (run_scheds (suc k) ticks s st ≡ some r)
          × (r.0.pcb_curr ≡ some j)
    turn k s st [] e p at = cc
    turn zero s st (n ∷ rest) e p at =
        let (s', st', back, step, curr, _, _) = sched-front ticks n idle rest s st p e in
        ((s', st'), rw (step, run_scheds) refl, curr ∙ at)
    turn (suc k) s st (n ∷ rest) e p at =
        let (s', st', back, step, _, ready, e') = sched-front ticks n idle rest s st p e in
        let (r, runs, curr) =
          turn k s' st' s'.ready_list e' refl (rw ready (get_elem?-append rest back k at)) in
        (r, rw (step, run_scheds) runs, curr)
