-- ===== src/Machine.antt =====
-- include/device/processor/processor.h, include/os/oscore/oscore.h: the state of the whole machine.
-- The singletons are the parts of `Machine`. A method is a function `M mem A` on it: its result with
-- the new machine, or none where the source follows a null pointer, leaves an array or divides by 0.
use ferry_os.Prelude.{ℕ, Bool, Option, none, some, List, ◌≡◌, ap}
use ferry_os.Os.PcbManager.{PcbManager}
use ferry_os.Os.SemManager.{SemManager}
use ferry_os.Os.Scheduler.{Scheduler}
use ferry_os.Os.Pcb.{Pcb, update}
use ferry_os.Device.Interrupter.{IntController}

-- An operand: `value` is the union, read as the int or the index that `kind` says.
pub record Op : Type 0 where
  pub kind : ℕ
  pub value : ℕ
  pub offset_index : ℕ

pub record Instr : Type 0 where
  pub op_code : ℕ
  pub op_num : ℕ
  pub op_list : List Op

-- The registers are ints, kept as their bit patterns below 2 ^ 32.
pub record Cpu : Type 0 where
  pub flag : ℕ
  pub pc : ℕ
  pub ss : ℕ
  pub sp : ℕ
  pub cs : ℕ
  pub ds : ℕ
  pub fs : ℕ
  pub as_ : ℕ
  pub bp : ℕ
  pub ir : Instr
  pub reg0 : ℕ
  pub reg1 : ℕ
  pub reg2 : ℕ
  pub reg3 : ℕ

-- `cpu_usage` keeps the numerator and the denominator of the quotient of floats.
pub record Core : Type 0 where
  pub is_running : Bool
  pub int_nesting : ℕ
  pub pcb_manager : PcbManager
  pub scheduler : Scheduler
  pub sem_manager : SemManager
  pub time : ℕ
  pub free_time : ℕ
  pub cpu_usage : ℕ × ℕ

pub record Machine (S : Type 0) : Type 0 where
  pub core : Core
  pub cpu : Cpu
  pub mem : S
  pub int_ctrl : IntController

abbrev pub M : Type 0 → Type 0 → Type 0
M S A = Machine S → Option (A × Machine S)

abbrev pub pure : {S A : Type 0} → A → M S A
pure a m = some (a, m)

infixl 5 ◌>>=◌ ◌>>◌
abbrev pub ◌>>=◌ : {S A B : Type 0} → M S A → (A → M S B) → M S B
◌>>=◌ x f m = elim (x m) [ none ↦ none | some (a, m') ↦ f a m' ]

abbrev pub ◌>>◌ : {S B : Type 0} → M S (Unit {0}) → M S B → M S B
x >> k = x >>= λ _. k

-- A fault: nothing is known of the machine from here on.
abbrev pub fault : {S A : Type 0} → M S A
fault m = none

abbrev pub from_cpu : {S : Type 0} → (Cpu → ℕ) → M S ℕ
from_cpu f m = some (f m.cpu, m)

abbrev pub change_cpu : {S : Type 0} → (Cpu → Cpu) → M S (Unit {0})
change_cpu f m = some (tt, record m { cpu = f m.cpu })

abbrev pub change_core : {S : Type 0} → (Core → Core) → M S (Unit {0})
change_core f m = some (tt, record m { core = f m.core })

-- `mScheduler->getCurrPcb()`, followed.
unfoldable pub curr_pcb : {S : Type 0} → M S ℕ
curr_pcb m = elim m.core.scheduler.pcb_curr [ none ↦ none | some i ↦ some (i, m) ]

-- `mCore->getPcbCurr()->getPid()`
unfoldable pub curr_pid : {S : Type 0} → M S ℕ
curr_pid m = elim m.core.scheduler.pcb_curr [
  | none ↦ none
  | some i ↦ some ((m.core.pcb_manager.pcbs i).pid, m)
]

abbrev pub with_pcb : (Pcb → Pcb) → ℕ → Core → Core
with_pcb f i c =
    let pm = c.pcb_manager in record c { pcb_manager = record pm { pcbs = update f i pm.pcbs } }

abbrev pub change_pcb : {S : Type 0} → (Pcb → Pcb) → ℕ → M S (Unit {0})
change_pcb f i = change_core (with_pcb f i)

-- A chain of steps, step by step.
pub bind-some :
    {S A B : Type 0} (x : M S A) (f : A → M S B) {m m' : Machine S} {a : A}
    → x m ≡ some (a, m')
    → (x >>= f) m ≡ f a m'
bind-some {S = S} {B = B} x f e =
    ap (λ o. elim o as (λ _. Option (B × Machine S)) [ none ↦ none | some (a, m') ↦ f a m' ]) e

pub curr_pcb-some :
    {S : Type 0} {m : Machine S} {curr : ℕ}
    → m.core.scheduler.pcb_curr ≡ some curr
    → curr_pcb m ≡ some (curr, m)
unfolding curr_pcb
curr_pcb-some {S = S} {m = m} e =
    ap (λ o. elim o as (λ _. Option (ℕ × Machine S)) [ none ↦ none | some i ↦ some (i, m) ]) e

pub curr_pid-some :
    {S : Type 0} {m : Machine S} {curr : ℕ}
    → m.core.scheduler.pcb_curr ≡ some curr
    → curr_pid m ≡ some ((m.core.pcb_manager.pcbs curr).pid, m)
unfolding curr_pid
curr_pid-some {S = S} {m = m} e =
    ap
      (λ o. elim o as (λ _. Option (ℕ × Machine S)) [
        | none ↦ none
        | some i ↦ some ((m.core.pcb_manager.pcbs i).pid, m)
      ])
      e
