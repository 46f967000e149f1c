-- ===== src/Tests/Data.antt =====
-- The small machine that the examples run.
use ferry_os.Prelude.{
  ℕ, ◌+◌, refl, replicate, true, false, none, some, [], ◌∷◌, arith, ltb, ◌==◌, if◌then◌else◌,
}
use ferry_os.Config.{Config, load_default}
use ferry_os.Device.PageTableItem.{PageTableItem}
use ferry_os.Device.Mmu.ProcessTable.{ProcessTableItem}
use ferry_os.Device.Mmu.State.{Mmu}
use ferry_os.Machine.{Machine, Core, Instr}
use ferry_os.Device.Interrupter.{IntController}
use ferry_os.Os.Pcb.{Pcb, State, Store}
use ferry_os.Os.Sem.{Sems}
use ferry_os.Os.PcbManager.{PcbManager}
use ferry_os.Os.PcbManager.Laws
use ferry_os.Os.SemManager.{SemManager}
use ferry_os.Os.Scheduler.{Scheduler}

-- A memory with pages of 32 bytes, of which the process with pid 2 has pages 7 and 8 in memory.
abbrev pub stack_page : ℕ → ℕ → PageTableItem
stack_page page address = record {
  logical_page = page;
  physical_address = address;
  swap_page = 0;
  pid = 2;
  used = true;
  hosted = false;
  swapped = false;
  have_swapped = false;
  changed = false;
  in_memory = true;
  system = false;
}

abbrev pub user : ProcessTableItem
user = record {
  table_pid = 2;
  page_count = 16;
  stack_page_count = 16;
  heap_address = 16;
  heap_used_size = 0;
  process_table_number = 0;
  pages = λ q.
      if q == 7 then some (stack_page 7 300) else if q == 8 then some (stack_page 8 400) else none;
}

abbrev pub memory : Mmu
memory = record {
  page_bit = 5;
  maximum_tasks = 5;
  os_used_page = 1;
  page_table = record {
    page_map = [];
    slots = λ i. record { item = stack_page 0 0; pre = none; next = none };
    lru_head = none;
    lru_tail = none;
    capacity = 0;
    used_count = 0;
    alloced_count = 0;
  };
  frame_table = [];
  process_table = (2, user) ∷ [];
  process_table_used = true ∷ [];
  system_address = 0;
  system_used_size = 0;
  hosted_size = 0;
  swap = record {
    used_page = 0;
    alloc_page = 0;
    space_page = 0;
    bitmap = [];
    allocmap = [];
    file = none;
  };
  memory = λ a. replicate 32 0;
  space_address = 500;
}

-- A block by its index, state and delay.
abbrev pub block : ℕ → State → ℕ → Pcb
block i state delay = record {
  stack_bottom = 0;
  stack_top = 1000;
  stack_base = 64;
  stack_size = 4096;
  stack_used = 0;
  pid = i + 1;
  delay = delay;
  is_time_out = false;
  state = state;
  prio = 0;
  to_del = false;
  switch_ctr = 0;
  total_cycles = 0;
  sem_ptr = none;
  name = [];
}

-- Block 1 runs, 2 is ready, 3 pauses for one more tick, and 0 is the idle process.
abbrev pub blocks : Store
blocks i = if i == 3 then block i State.suspend 1 else block i State.ready 0

abbrev pub queues : Scheduler
queues = record {
  pcb_curr = some 1;
  waiting_list = 3 ∷ [];
  ready_list = 2 ∷ [];
  next_to_run = none;
  idle_pcb = some 0;
}

abbrev pub managed : PcbManager
managed = record { free_list = 4 ∷ []; created = λ i. ltb i 4; pcbs = blocks; proc_ctr = 4 }

pub managed-IsConsistent : Laws.IsConsistent 5 managed
managed-IsConsistent = record {
  word = omega arith;
  counted = refl;
  free_once = λ i lt. ground arith;
  in_range = λ i le. ground arith;
  pids = λ i lt. ground arith;
}

-- Semaphore 0 has two tokens, 1 has none and process 3 waits for it.
abbrev pub sems : Sems
sems i = record {
  id = i;
  ctr = if i == 0 then 2 else 0;
  largest_ctr = 4;
  name = [];
  waiting_list = if i == 1 then 3 ∷ [] else [];
}

abbrev pub sem_managed : SemManager
sem_managed = record { sems = sems; is_free = λ i. i == 2; free_list = 2 ∷ [] }

abbrev pub kernel : Core
kernel = record {
  is_running = true;
  int_nesting = 0;
  pcb_manager = managed;
  scheduler = queues;
  sem_manager = sem_managed;
  time = 7;
  free_time = 0;
  cpu_usage = (0, 1);
}

abbrev pub controller : IntController
controller = record { irq = true; irr = 6; isr = 0; int_num = 0 }

-- `Add` of the literal 5 to register 1.
abbrev pub add_five : Instr
add_five = record {
  op_code = 1;
  op_num = 2;
  op_list =
      record { kind = 8; value = 1; offset_index = 0 }
      ∷ record { kind = 0; value = 5; offset_index = 0 }
      ∷ [];
}

abbrev pub machine : Machine Mmu
machine = record {
  core = kernel;
  cpu = record {
    flag = 0;
    pc = 14;
    ss = 64;
    sp = 200;
    cs = 0;
    ds = 0;
    fs = 0;
    as_ = 0;
    bp = 60;
    ir = add_five;
    reg0 = 1;
    reg1 = 2;
    reg2 = 3;
    reg3 = 4;
  };
  mem = memory;
  int_ctrl = controller;
}

abbrev pub config : Config
config = record load_default { maximum_tasks = 5; max_sem = 3 }
