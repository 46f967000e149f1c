-- ===== src/Os/Sem/Laws.antt =====
-- os/oscore/OSSem.cpp: what keeps a semaphore sound, the order in which it serves, and its name.
use ferry_os.Prelude.{
  ℕ, zero, suc, ◌-◌, ◌^◌, ◌≤◌, ◌<◌, ◌≡◌, ◌↔◌, refl, sym, ap, ◌∙◌, none, some, List, [], ◌∷◌, ◌++◌,
  length, arith,
}
use ferry_os.Prelude.Words.{copy_string}
use mathlib.Core.List.{append-nil, append_assoc}
use ferry_os.Os.Pcb.{Store, remove_pid}
use ferry_os.Os.Sem.{
  Sem, wait, signal, set_ctr, set_largest, remove_waiting, set_name, sem_name_size,
}

-- The counter is within its limit, which is a UINT16, and nobody waits while it is positive.
pub record IsSound (s : Sem) : Type 0 where
  pub within : s.ctr ≤ s.largest_ctr
  pub word : s.largest_ctr < 2 ^ 16
  pub no_idle_token : 0 < s.ctr → s.waiting_list ≡ []

-- Waiting, signalling, taking a token without waiting, a new limit and the removal of a process that
-- timed out or was deleted all keep a semaphore sound.
pub ops-IsSound :
    (this pcb delay pid largest : ℕ) (st : Store) (s : Sem)
    → largest < 2 ^ 16
    → IsSound s
    → IsSound (wait this pcb delay s st).0
      × IsSound (signal s st).0
      × IsSound (set_ctr (s.ctr - 1) s)
      × IsSound (set_largest largest s)
      × IsSound (remove_waiting st pid s)
unfolding wait signal set_ctr set_largest remove_waiting remove_pid
ops-IsSound this pcb delay pid largest st s small h =
    (ground arith, ground arith, ground arith, ground arith, ground arith)

-- `wait` for each process of a list, in order.
unfoldable pub wait_all : ℕ → ℕ → List ℕ → Sem → Store → Sem × Store
wait_all this delay [] s st = (s, st)
wait_all this delay (i ∷ is) s st =
    let (s', st', _) = wait this i delay s st in wait_all this delay is s' st'

-- `signal` a number of times: the processes that were woken, in order.
unfoldable pub signal_all : ℕ → Sem → Store → List ℕ
signal_all zero s st = []
signal_all (suc n) s st =
    let (s', st', woken) = signal s st in
    let rest = signal_all n s' st' in elim woken [ none ↦ rest | some i ↦ i ∷ rest ]

wait_all-queue :
    (this delay : ℕ) (is : List ℕ) (s : Sem) (st : Store)
    → s.ctr ≡ 0
    → (wait_all this delay is s st).0.waiting_list ≡ s.waiting_list ++ is
unfolding wait_all wait
wait_all-queue this delay [] s st e = sym (append-nil s.waiting_list)
wait_all-queue this delay (i ∷ is) s st e =
    wait_all-queue this delay is (wait this i delay s st).0 (wait this i delay s st).1
      (ground arith)
    ∙ (ap (λ q. q ++ is) queued ∙ append_assoc s.waiting_list (i ∷ []) is)
  where
    queued : (wait this i delay s st).0.waiting_list ≡ s.waiting_list ++ i ∷ []
    queued = ground arith

signal_all-queue :
    (is : List ℕ) (s : Sem) (st : Store) → s.waiting_list ≡ is → signal_all (length is) s st ≡ is
unfolding signal_all signal
signal_all-queue [] s st e = refl
signal_all-queue (i ∷ is) s st e =
    ground (arith, signal_all-queue is (record s { waiting_list = is }) (signal s st).1 refl)

-- First come, first served: on a semaphore without tokens or waiters, the processes that wait are
-- woken in the order in which they came.
pub signal_all-wait_all :
    (this delay : ℕ) (is : List ℕ) (s : Sem) (st : Store)
    → s.ctr ≡ 0
    → s.waiting_list ≡ []
    → let (s', st') = wait_all this delay is s st in signal_all (length is) s' st' ≡ is
signal_all-wait_all this delay is s st e w =
    signal_all-queue is _ _ (wait_all-queue this delay is s st e ∙ ap (λ q. q ++ is) w)

-- Setting a name writes behind the buffer just for the length 64: a longer name is cut, a shorter
-- one fits, but 64 characters leave no room for the closing zero.
pub set_name_fault_iff :
    (name : List ℕ) (n : ℕ) (s : Sem)
    → length s.name ≡ sem_name_size
    → (set_name (some name) n s ≡ none) ↔ (n ≡ sem_name_size)
unfolding set_name copy_string
set_name_fault_iff name n s h = (λ e. ground arith, λ e. ground arith)
