-- ===== src/Os/Scheduler/Timer.antt =====
-- os/scheduler/OSScheduler.cpp: what a tick of the clock does to the waiting processes.
use ferry_os.Prelude.{
  ℕ, ◌-◌, ◌≡◌, refl, ap, ap, ◌∙◌, sym, List, [], ◌∷◌, ◌++◌, arith, ◌==◌, if◌then◌else◌, ltb, ◌<◌,
}
use mathlib.Core.Path.{ap₂}
use mathlib.Core.List.{append-nil, append_assoc}
use ferry_os.Prelude.Count.{times}
use ferry_os.Os.Pcb.{Pcb, Store, dec_delay}
use ferry_os.Os.Sem.{Sems}
use ferry_os.Os.Scheduler.{Scheduler, Timers, time_out, tick_one, tick_all, caculate_delay}

-- The processes of a queue whose delay runs out at this tick, and the others, in their order. A
-- delay of 0 is no delay at all.
abbrev pub expiring : Store → List ℕ → List ℕ
expiring st [] = []
expiring st (i ∷ is) = if (st i).delay == 1 then i ∷ expiring st is else expiring st is

abbrev pub staying : Store → List ℕ → List ℕ
staying st [] = []
staying st (i ∷ is) = if (st i).delay == 1 then staying st is else i ∷ staying st is

-- What a tick does to the block of a waiting process.
abbrev pub tick_pcb : Pcb → Pcb
tick_pcb p =
    if p.delay == 0
    then p
    else if p.delay == 1
    then time_out (record p { delay = 0 })
    else record p { delay = p.delay - 1 }

abbrev pub IsDistinct : List ℕ → Type 0
IsDistinct [] = Unit
IsDistinct (i ∷ is) = (times i is ≡ 0) × IsDistinct is

staying-congr :
    (st st' : Store) (is : List ℕ)
    → ((j : ℕ) → 0 < times j is → st j ≡ st' j)
    → (staying st is ≡ staying st' is) × (expiring st is ≡ expiring st' is)
staying-congr st st' [] h = (refl, refl)
staying-congr st st' (i ∷ is) h =
    ground (arith, h i (ground arith), staying-congr st st' is (λ j lt. h j (omega arith)))

tick_one_lem :
    (w : ℕ) (t : Timers)
    → ((tick_one w t).kept ≡ t.kept ++ staying t.pcbs (w ∷ []))
      × ((tick_one w t).woken ≡ t.woken ++ expiring t.pcbs (w ∷ []))
unfolding tick_one dec_delay
tick_one_lem w t = ground (arith, append-nil t.kept, append-nil t.woken)

tick_one-pcbs :
    (w j : ℕ) (t : Timers)
    → (tick_one w t).pcbs j ≡ (if w == j then tick_pcb (t.pcbs j) else t.pcbs j)
unfolding tick_one dec_delay
tick_one-pcbs w j t = ground arith

staying-cons :
    (st : Store) (w : ℕ) (ws : List ℕ) → staying st (w ∷ ws) ≡ staying st (w ∷ []) ++ staying st ws
staying-cons st w ws = ground arith

expiring-cons :
    (st : Store) (w : ℕ) (ws : List ℕ)
    → expiring st (w ∷ ws) ≡ expiring st (w ∷ []) ++ expiring st ws
expiring-cons st w ws = ground arith

-- The loop over a queue in which no block stands twice.
tick_all_lem :
    (ws : List ℕ) (j : ℕ) (t : Timers)
    → IsDistinct ws
    → ((tick_all ws t).kept ≡ t.kept ++ staying t.pcbs ws)
      × ((tick_all ws t).woken ≡ t.woken ++ expiring t.pcbs ws)
      × ((tick_all ws t).pcbs j ≡ (if ltb 0 (times j ws) then tick_pcb (t.pcbs j) else t.pcbs j))
unfolding tick_all
tick_all_lem [] j t d = (sym (append-nil t.kept), sym (append-nil t.woken), refl)
tick_all_lem (w ∷ ws) j t d =
    let (kept, woken, pcbs) = tick_all_lem ws j (tick_one w t) d.1 in
    let (one_kept, one_woken) = tick_one_lem w t in
    let (same_staying, same_expiring) = staying-congr t.pcbs (tick_one w t).pcbs ws untouched in
    (
      kept
          ∙ (ap₂ ◌++◌ one_kept (sym same_staying)
              ∙ (append_assoc t.kept (staying t.pcbs (w ∷ [])) (staying t.pcbs ws)
                  ∙ ap (λ q. t.kept ++ q) (sym (staying-cons t.pcbs w ws)))),
      woken
          ∙ (ap₂ ◌++◌ one_woken (sym same_expiring)
              ∙ (append_assoc t.woken (expiring t.pcbs (w ∷ [])) (expiring t.pcbs ws)
                  ∙ ap (λ q. t.woken ++ q) (sym (expiring-cons t.pcbs w ws)))),
      pcbs ∙ ground (arith, tick_one-pcbs w j t, d.0),
    )
  where
    untouched : (k : ℕ) → 0 < times k ws → t.pcbs k ≡ (tick_one w t).pcbs k
    untouched k lt = sym (tick_one-pcbs w k t ∙ ground (arith, d.0))

-- A tick moves the processes whose delay runs out to the end of the ready queue, in the order in
-- which they wait, and leaves the others waiting in theirs; it counts down the delay of each process
-- that has one, and changes no block outside the waiting queue.
pub caculate_delay_lem :
    (s : Scheduler) (st : Store) (ss : Sems) (j : ℕ)
    → IsDistinct s.waiting_list
    → let (s', st', _) = caculate_delay s st ss in
      (s'.waiting_list ≡ staying st s.waiting_list)
      × (s'.ready_list ≡ s.ready_list ++ expiring st s.waiting_list)
      × (s'.pcb_curr ≡ s.pcb_curr)
      × (st' j ≡ (if ltb 0 (times j s.waiting_list) then tick_pcb (st j) else st j))
unfolding caculate_delay
caculate_delay_lem s st ss j d =
    let (kept, woken, pcbs) =
      tick_all_lem s.waiting_list j
        (record { kept = []; woken = s.ready_list; pcbs = st; sems = ss }) d in
    (kept, woken, refl, pcbs)
