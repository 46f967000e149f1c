-- ===== src/Tests/Paging.antt =====
-- The properties of the memory management unit, with pages of four bytes: a page of the system, a
-- process with two pages in memory and one that is not, and one whose page can be replaced.
use ferry_os.Prelude.{
  ℕ, zero, suc, ◌+◌, ◌*◌, ◌/◌, ◌%◌, ◌^◌, ◌<◌, ◌≡◌, refl, Bool, true, false, Option, none, some,
  List, [], ◌∷◌, ◌++◌, arith, ◌==◌, if◌then◌else◌, inr, get_or, All, replicate,
}
use ferry_os.Device.SwapSpace.{SwapSpace, load_page_into_memory}
use ferry_os.Device.SwapSpace
use ferry_os.Device.SwapSpace.Pages.{IsConsistent, init-IsConsistent}
use ferry_os.Device.Mmu.Schedule.FirstEviction.{schedule-swaps_out}
use ferry_os.Device.PageTableItem.{PageTableItem, FrameTableItem, Physical}
use ferry_os.Device.Mmu.ProcessTable.{ProcessTableItem}
use ferry_os.Device.Mmu.PageTable.{
  is_full, Slot, Key, PageTable, used_item, find_victim, is_full, used_page, find_key,
}
use ferry_os.Device.Mmu.PageTable.Lru.{Walk, first_free, find_victim-first_free}
use ferry_os.Device.Mmu.PageTable.Uses.{used_item-back, used_item-loses_head}
use ferry_os.Device.Mmu.Frames.{first_frame}
use ferry_os.Device.Mmu.State.{find_process, Mmu, get_process_page_table_item}
use ferry_os.Device.Mmu.Schedule.{insert_page_at, insert_page, page_fault, schedule, use_page}
use ferry_os.Device.Mmu.Schedule.Served.{InMemory, page_fault-InMemory}
use ferry_os.Device.Mmu.Schedule.Clean.{schedule-shares_frame}
use ferry_os.Device.Mmu.Access.{locate, write, read_byte}
use ferry_os.Device.Mmu.Access.Reads.{locate-returns}
use ferry_os.Device.Mmu.Access.Resident.{Resident, IsLaidOut, Written}
use ferry_os.Device.Mmu.Access.RoundTrip.{write-Written, read_byte-write}
use ferry_os.Device.Mmu.Processes.{free_process}
use ferry_os.Device.Mmu.Processes.Ends.{is_live, free_process-releases}

abbrev entry : ℕ → ℕ → ℕ → Bool → Bool → PageTableItem
entry page pid address inside swapped_once = record {
  logical_page = page;
  physical_address = address;
  swap_page = 8;
  pid = pid;
  used = inside;
  hosted = pid == 0;
  swapped = false;
  have_swapped = swapped_once;
  changed = false;
  in_memory = inside;
  system = pid == 0;
}

abbrev slot_of : PageTableItem → Option ℕ → Option ℕ → Slot
slot_of i pre next = record { item = i; pre = pre; next = next }

-- The three entries; the second is a page of the process with the pid.
abbrev slots_of : ℕ → ℕ → Slot
slots_of second j =
    if j == 0
    then slot_of (entry 0 0 100 true false) (some 1) none
    else if j == 1
    then slot_of (entry 0 second 104 true true) (some 2) (some 0)
    else slot_of (entry 1 2 108 true false) none (some 1)

abbrev keys : List Key
keys =
    record { key_page = 1; key_pid = 2; slot = 2 }
    ∷ record { key_page = 0; key_pid = 2; slot = 1 }
    ∷ record { key_page = 0; key_pid = 0; slot = 0 }
    ∷ []

abbrev table_of : ℕ → PageTable
table_of second = record {
  page_map = keys;
  slots = slots_of second;
  lru_head = some 2;
  lru_tail = some 0;
  capacity = 4;
  used_count = 3;
  alloced_count = 3;
}

abbrev table : PageTable
table = table_of 2

abbrev frame : ℕ → ℕ → ℕ → Bool → FrameTableItem
frame address page pid occupied = record {
  frame_address = address;
  logic_page = page;
  frame_pid = pid;
  occupied = occupied;
}

abbrev frames : List FrameTableItem
frames = frame 100 0 0 true ∷ frame 104 0 2 true ∷ frame 108 1 2 true ∷ frame 0 0 0 false ∷ []

abbrev user : ProcessTableItem
user = record {
  table_pid = 2;
  page_count = 3;
  stack_page_count = 1;
  heap_address = 1;
  heap_used_size = 7;
  process_table_number = 0;
  pages = λ q.
      if q == 0
      then some (entry 0 2 104 true false)
      else if q == 1
      then some (entry 1 2 108 true false)
      else some (entry 2 2 0 false false);
}

abbrev host_memory : Physical
host_memory a = 1 ∷ 2 ∷ 3 ∷ 4 ∷ []

abbrev closed_swap : SwapSpace
closed_swap = record {
  used_page = 0;
  alloc_page = 0;
  space_page = 8;
  bitmap = [];
  allocmap = [];
  file = none;
}

abbrev mmu : Mmu
mmu = record {
  page_bit = 2;
  maximum_tasks = 2;
  os_used_page = 1;
  page_table = table;
  frame_table = frames;
  process_table = (2, user) ∷ [];
  process_table_used = true ∷ false ∷ [];
  system_address = 100;
  system_used_size = 4;
  hosted_size = 4;
  swap = closed_swap;
  memory = host_memory;
  space_address = 200;
}

-- The bytes go to the last two places of the first page and the first of the second.
abbrev sent : List ℕ
sent = 7 ∷ 8 ∷ 9 ∷ []

user_pages : (k : ℕ) → 2 ^ 2 * k < 2 % 2 ^ 2 + 3 → Resident user (2 / 2 ^ 2 + k)
user_pages zero lt = (entry 0 2 104 true false, refl, refl)
user_pages (suc zero) lt = (entry 1 2 108 true false, refl, refl)
user_pages (suc (suc k)) lt = absurd (omega arith)

user-IsLaidOut : IsLaidOut (2 ^ 2) user host_memory
user-IsLaidOut = record { separate = λ q r i j e a f b at. ground arith; sized = λ q i e a. refl }

find_victim-first_free_example :
    find_victim 3 table (some 0) ≡ some (first_free (slots_of 2) (0 ∷ 1 ∷ 2 ∷ []))
find_victim-first_free_example =
    find_victim-first_free table (0 ∷ 1 ∷ 2 ∷ []) (some 0) 3 (refl, (refl, (refl, tt)))
      ((λ e. ground arith), ((λ e. ground arith), ((λ e. ground arith), tt))) (inr refl)
      (omega arith)

used_item-back_example :
    (Walk (used_item 1 table).slots (some 0) ((0 ∷ []) ++ ((2 ∷ []) ++ 1 ∷ [])))
    × ((used_item 1 table).lru_head ≡ some 1)
used_item-back_example =
    used_item-back table 1 0 2 [] [] (some 0) (refl, (refl, (refl, tt))) refl refl (omega arith) tt
      tt

used_item-loses_head_example :
    (find_victim 3 (table_of 0) (some 0) ≡ some (some 2))
    × (find_victim 3 (used_item 2 (table_of 0)) (used_item 2 (table_of 0)).lru_tail ≡ some none)
    × (((used_item 2 (table_of 0)).slots 2).item.hosted ≡ false)
unfolding first_free
used_item-loses_head_example =
    used_item-loses_head (table_of 0) 1 2 (0 ∷ []) 3 (refl, (refl, (refl, tt)))
      ((λ e. ground arith), ((λ e. ground arith), ((λ e. ground arith), tt))) refl refl refl
      (omega arith) (((omega arith), (omega arith)), tt) refl refl (omega arith)

write-Written_example :
    (n : Mmu) × (write 2 sent 2 mmu ≡ some (true, n))
    × Written user (2 / 2 ^ 2) (2 % 2 ^ 2) sent mmu n
unfolding find_process
write-Written_example =
    write-Written 2 2 sent mmu user (omega arith) refl (omega arith) (omega arith) (omega arith)
      user-IsLaidOut user_pages (omega arith)

read_byte-write_example :
    (n : Mmu) × (write 2 sent 2 mmu ≡ some (true, n))
    × (read_byte 2 (2 + 2) n ≡ some (9, use_page ((2 + 2) / 2 ^ n.page_bit) 2 n))
unfolding find_process
read_byte-write_example =
    read_byte-write 2 2 2 sent mmu user (omega arith) refl (omega arith) (omega arith) (omega arith)
      user-IsLaidOut user_pages (omega arith)

-- The state after the page fault of page 2.
abbrev served : Mmu
served = elim (page_fault 2 2 mmu) [ none ↦ mmu | some (_, n) ↦ n ]

page_fault-InMemory_example : InMemory 2 2 served
unfolding page_fault get_process_page_table_item find_process insert_page insert_page_at is_full
    first_frame
page_fault-InMemory_example = page_fault-InMemory 2 2 mmu served (omega arith) refl

locate-returns_example :
    (r : Option ℕ × Mmu) × ((more : ℕ) → locate (suc (suc more)) 2 2 mmu ≡ some r)
unfolding page_fault get_process_page_table_item find_process insert_page insert_page_at is_full
    first_frame used_page find_key used_item
locate-returns_example = locate-returns 2 2 mmu (omega arith) (λ e. ground arith)

abbrev other : ProcessTableItem
other = record user {
  table_pid = 3;
  pages = λ q. if q == 0 then some (entry 0 3 104 true true) else none;
}

abbrev crowded : Mmu
crowded = record mmu { page_table = table_of 3; process_table = (2, user) ∷ (3, other) ∷ [] }

schedule-shares_frame_example :
    (n : Mmu) × (k : PageTableItem) × (schedule 2 2 crowded ≡ some (true, n))
    × (get_process_page_table_item 2 2 n ≡ some k)
    × (k.in_memory ≡ true)
    × (k.physical_address ≡ 104)
    × (get_process_page_table_item 3 0 n ≡ some (entry 0 3 104 true true))
unfolding find_victim get_process_page_table_item find_process
schedule-shares_frame_example =
    schedule-shares_frame 2 2 1 crowded (entry 0 3 104 true true) (entry 2 2 0 false false) refl
      (omega arith) (omega arith) refl refl refl refl refl refl

-- A heap whose pages 1 and 2 are free.
abbrev freed : ProcessTableItem
freed = record user { heap_used_size = 11; pages = λ q. some (entry q 2 0 false false) }

free_process-releases_example :
    (n : Mmu) × (free_process 2 mmu ≡ (n, true))
    × All (λ k. is_live 2 n.page_table.slots k ≡ false) n.page_table.page_map
    × (get_or n.process_table_used 0 false ≡ false)
unfolding find_process
free_process-releases_example = free_process-releases 2 mmu user refl (omega arith)

abbrev fresh_swap : SwapSpace
fresh_swap = record {
  used_page = 0;
  alloc_page = 0;
  space_page = 8;
  bitmap = replicate 8 false;
  allocmap = replicate 8 false;
  file = some (λ i. []);
}

fresh_swap-IsConsistent : IsConsistent fresh_swap
unfolding SwapSpace.init
fresh_swap-IsConsistent = init-IsConsistent 8 (some (λ i. []))

abbrev newcomer : ProcessTableItem
newcomer = record user {
  table_pid = 3;
  pages = λ q. if q == 0 then some (entry 0 3 104 true false) else none;
}

abbrev full : Mmu
full = record mmu {
  page_table = table_of 3;
  process_table = (2, user) ∷ (3, newcomer) ∷ [];
  swap = fresh_swap;
}

schedule-swaps_out_example :
    (n : Mmu) × (k : PageTableItem) × (schedule 2 2 full ≡ some (true, n))
    × (get_process_page_table_item 3 0 n ≡ some k)
    × (k.in_memory ≡ false)
    × (k.swapped ≡ true)
    × (load_page_into_memory k.swap_page n.swap ≡ some (1 ∷ 2 ∷ 3 ∷ 4 ∷ []))
unfolding find_victim get_process_page_table_item find_process
schedule-swaps_out_example =
    schedule-swaps_out 2 2 1 full (entry 0 3 104 true false) (λ i. []) refl (omega arith)
      (omega arith) refl refl refl (omega arith) fresh_swap-IsConsistent (omega arith) refl
