-- ===== src/Os/Pcb.antt =====
-- os/oscore/OSPcb.cpp, include/os/oscore/OS.h: process control blocks.
-- One function stands for each method, with the new block as its result. `Store` is the array of
-- blocks that the process manager owns and that queues and semaphores point into.
use Prim.Native.Nat.{bit_and, bit_or}
use mathlib.Core.Option
use ferry_os.Prelude.{
  ℕ, ◌+◌, ◌-◌, Bool, true, false, not, Option, none, List, [], ◌∷◌, ltb, ◌==◌, if◌then◌else◌,
}
use ferry_os.Prelude.Words.{u16, u32, copy_string}

-- `PROC_STATE_READY` and its fellows, with their codes.
pub data State : Type 0 where
  ready running waiting suspend terminated swapped_ready swapped_waiting swapped_suspend : State

abbrev pub code : State → ℕ
code ready = 0x00
code running = 0x01
code waiting = 0x02
code suspend = 0x04
code terminated = 0x08
code swapped_ready = 0x10
code swapped_waiting = 0x20
code swapped_suspend = 0x40

pub record Pcb : Type 0 where
  pub stack_bottom : ℕ
  pub stack_top : ℕ
  pub stack_base : ℕ
  pub stack_size : ℕ
  pub stack_used : ℕ
  pub pid : ℕ
  pub delay : ℕ
  pub is_time_out : Bool
  pub state : State
  pub prio : ℕ
  pub to_del : Bool
  pub switch_ctr : ℕ
  pub total_cycles : ℕ
  pub sem_ptr : Option ℕ
  pub name : List ℕ

-- Only `mPid` and `mName` keep their values.
unfoldable pub clear : Pcb → Pcb
clear p = record p {
  stack_base = 0;
  stack_bottom = 0;
  stack_top = 0;
  stack_size = 0;
  stack_used = 0;
  delay = 0;
  is_time_out = false;
  state = terminated;
  prio = 0;
  to_del = false;
  switch_ctr = 0;
  total_cycles = 0;
  sem_ptr = none;
}

-- `stackSize - 1` is a UINT32. The result is none where the name does not fit its buffer.
unfoldable pub init : List ℕ → ℕ → ℕ → ℕ → ℕ → State → Pcb → Option Pcb
unfolding copy_string
init name name_size stack_base stack_size prio state p =
    Option.map
      (λ buffer. record p {
        stack_bottom = u32 (stack_size + 0xffffffff);
        stack_top = u32 (stack_size + 0xffffffff);
        stack_base = stack_base;
        stack_size = stack_size;
        prio = prio;
        state = state;
        name = buffer;
      })
      (copy_string name_size name p.name)

unfoldable pub set_stack_top : ℕ → Pcb → Pcb
set_stack_top top p = record p { stack_top = u32 top }

unfoldable pub set_stack_base : ℕ → Pcb → Pcb
set_stack_base base p = record p { stack_base = u32 base }

unfoldable pub set_pid : ℕ → Pcb → Pcb
set_pid pid p = record p { pid = u16 pid }

unfoldable pub set_delay : ℕ → Pcb → Pcb
set_delay delay p = record p { delay = u16 delay }

unfoldable pub dec_delay : Pcb → Pcb
dec_delay p = if ltb 0 p.delay then record p { delay = p.delay - 1 } else p

unfoldable pub set_time_out : Bool → Pcb → Pcb
set_time_out is_time_out p = record p { is_time_out = is_time_out }

unfoldable pub set_state : State → Pcb → Pcb
set_state state p = record p { state = state }

-- `PROC_STATE_WAITING_ANY` stands for `PROC_STATE_WAITING | PROC_STATE_SWAPPED_WAITING` with no
-- parentheses, and `&` binds tighter than `|`.
unfoldable pub is_waiting_event : Pcb → Bool
is_waiting_event p =
    not (bit_or (bit_and (code p.state) (code waiting)) (code swapped_waiting) == code ready)

unfoldable pub is_suspend : Pcb → Bool
is_suspend p =
    not (bit_or (bit_and (code p.state) (code suspend)) (code swapped_suspend) == code ready)

unfoldable pub set_prio : ℕ → Pcb → Pcb
set_prio prio p = record p { prio = prio }

unfoldable pub set_del : Pcb → Pcb
set_del p = record p { to_del = true }

unfoldable pub inc_switch_ctr : Pcb → Pcb
inc_switch_ctr p = record p { switch_ctr = u32 (p.switch_ctr + 1) }

unfoldable pub inc_total_cycles : Pcb → Pcb
inc_total_cycles p = record p { total_cycles = u32 (p.total_cycles + 1) }

unfoldable pub is_new : Pcb → Bool
is_new p = p.stack_bottom == p.stack_top

unfoldable pub set_sem : Option ℕ → Pcb → Pcb
set_sem sem p = record p { sem_ptr = sem }

-- The array of blocks; an index at or above its length is never used.
abbrev pub Store : Type 0
Store = ℕ → Pcb

abbrev pub update : (Pcb → Pcb) → ℕ → Store → Store
update f i st j = if i == j then f (st j) else st j

-- The loop of `removeWaiting`, `removeFromReadyList` and `removeFromWaitingList`: the first entry
-- whose block has the pid leaves the queue.
unfoldable pub remove_pid : Store → ℕ → List ℕ → List ℕ
remove_pid st pid [] = []
remove_pid st pid (i ∷ is) = if (st i).pid == pid then is else i ∷ remove_pid st pid is
